-- ===== src/Parser/Bom.antt =====
-- parser/pral/core/bom.py: bills of materials. What the csv module and openpyxl read of a file, the
-- rows of its cells or an exception, is an argument.
pub mod Columns
use Prim.Native.Char.{Char, code}
use Prim.Native.String.{compare}
use Prim.Native.Nat.{Ordering}
use hcp.Prelude.{
  ℕ, zero, suc, String, Bool, true, false, not, ◌&&◌, ◌||◌, Option, none, some, List, [], ◌∷◌, ◌++◌,
  map, any, select, length, ℤ, pos, ◌==◌, leb, ltb, str_eq, sort_by, if◌then◌else◌,
}
use hcp.Json
use hcp.Json.{Json, Fields, num, obj, end, field, set_field}
use hcp.Text.{append, strip, lower, contains, member, is_white, suffix}
use hcp.ObjectTypes.{lookup}
use hcp.Parser.Schema.{BomRow, ParsedOutput}
use hcp.Parser.Plugin.{ParseContext, base_output, apply_capabilities, distinct}

abbrev pub column_aliases : List (String × List String)
column_aliases =
    (
      "mpn",
      "mpn" ∷ "mfr part" ∷ "mfr part number" ∷ "manufacturer part number" ∷ "part number"
          ∷ "partnumber" ∷ "part #" ∷ "part" ∷ "pn" ∷ "p/n" ∷ [],
    )
    ∷ ("quantity", "qty" ∷ "quantity" ∷ "count" ∷ "amount" ∷ "q'ty" ∷ [])
    ∷ (
      "ref",
      "ref" ∷ "reference" ∷ "refdes" ∷ "ref des" ∷ "designator" ∷ "designators" ∷ "refs"
          ∷ "reference designator" ∷ [],
    )
    ∷ ("manufacturer", "manufacturer" ∷ "mfr" ∷ "vendor" ∷ "supplier" ∷ "make" ∷ [])
    ∷ ("description", "description" ∷ "desc" ∷ "value" ∷ "comment" ∷ "notes" ∷ [])
    ∷ []

is_alnum : Char → Bool
is_alnum c = (leb b'a' (code c) && leb (code c) b'z') || (leb b'0' (code c) && leb (code c) b'9')

-- re.sub(r"[^a-z0-9]+", " ", text); `inside` says that the run has begun
collapse : Bool → String → String
unfolding is_alnum
collapse inside String.[] = String.[]
collapse inside (String.◌∷◌ c s) =
    let kept = String.◌∷◌ c (collapse false s) in
    let run = collapse true s in if is_alnum c then kept else if inside then run else append " " run

unfoldable pub normalize_key : String → String
unfolding collapse
normalize_key header = strip (collapse false (lower (strip header)))

-- nh in aliases or any(a in nh for a in aliases)
unfoldable pub names_column : List String → String → Bool
names_column aliases header =
    member header aliases || any (λ (alias : String). contains alias header) aliases

-- the first header that passes, counted from `idx`
unfoldable pub first_index : (String → Bool) → ℕ → List String → Option ℕ
first_index p idx [] = none
first_index p idx (h ∷ hs) =
    let later = first_index p (suc idx) hs in if p h then some idx else later

-- Each field that a header names, with the header's index.
unfoldable pub map_columns : List (String × List String) → List String → List (String × ℕ)
map_columns [] headers = []
map_columns ((name, aliases) ∷ rest) headers = elim (first_index (names_column aliases) 0 headers) [
  | none ↦ map_columns rest headers
  | some idx ↦ (name, idx) ∷ map_columns rest headers
]

unfoldable pub normalize_headers : List String → List (String × ℕ)
normalize_headers headers = map_columns column_aliases (map normalize_key headers)

unfoldable pub nth : ℕ → List String → Option String
nth n [] = none
nth zero (x ∷ xs) = some x
nth (suc n) (x ∷ xs) = nth n xs

nonempty : String → Option String
nonempty s = if str_eq s "" then none else some s

-- The cell of a field: none where no header names it, the row is short, or the cell is blank.
unfoldable pub cell : List String → List (String × ℕ) → String → Option String
unfolding nth nonempty
cell row mapping name = elim (lookup name mapping) [
  | none ↦ none
  | some idx ↦ elim (nth idx row) [ none ↦ none | some text ↦ nonempty (strip text) ]
]

is_separator : Char → Bool
is_separator c = (code c == b',') || ((code c == b';') || is_white c)

-- The pieces between separators. Those between two that touch are empty, and are dropped below.
pieces : String → String → List String
unfolding is_separator
pieces piece String.[] = piece ∷ []
pieces piece (String.◌∷◌ c s) =
    let longer = pieces (append piece (String.◌∷◌ c String.[])) s in
    let next = piece ∷ pieces "" s in if is_separator c then next else longer

unfoldable pub designators : Option String → List String
unfolding pieces
designators none = []
designators (some refs) = select (λ (r : String). not (str_eq r "")) (map strip (pieces "" refs))

-- What `int(float(text))` gives: a number, a ValueError, or an OverflowError.
pub data Quantity : Type 0 where
  number : ℤ → Quantity
  not_a_number : Quantity
  overflow : Quantity

-- What the parser uses of Python's floats, and what it reads from a file.
pub record Reading : Type 0 where
  pub int_float : String → Quantity

pub data RowResult : Type 0 where
  skipped : RowResult
  row : BomRow → RowResult
  raised : RowResult

module _ (reading : Reading) where
  bom_row : List String → List (String × ℕ) → ℤ → BomRow
  bom_row cells mapping quantity = record {
    ref_designators = designators (cell cells mapping "ref");
    mpn = cell cells mapping "mpn";
    manufacturer = cell cells mapping "manufacturer";
    quantity = quantity;
    description = cell cells mapping "description";
    unit_price_usd = none;
  }

  with_quantity : List String → List (String × ℕ) → RowResult
  unfolding bom_row
  with_quantity cells mapping = elim (cell cells mapping "quantity") [
    | none ↦ row (bom_row cells mapping (pos 1))
    | some text ↦ elim (reading.int_float text) [
      | number n ↦ row (bom_row cells mapping n)
      | not_a_number ↦ row (bom_row cells mapping (pos 1))
      | overflow ↦ raised
    ]
  ]

  unfoldable pub row_to_bom : List String → List (String × ℕ) → RowResult
  unfolding with_quantity
  row_to_bom cells mapping = elim (cell cells mapping "ref") [
    | some _ ↦ with_quantity cells mapping
    | none ↦ elim (cell cells mapping "mpn") [
      | some _ ↦ with_quantity cells mapping
      | none ↦ skipped
    ]
  ]

  -- the rows, with `none` where one raises
  unfoldable pub bom_rows_of : List (String × ℕ) → List (List String) → Option (List BomRow)
  bom_rows_of mapping [] = some []
  bom_rows_of mapping (cells ∷ rows) = elim (row_to_bom cells mapping) [
    | skipped ↦ bom_rows_of mapping rows
    | raised ↦ none
    | row r ↦ elim (bom_rows_of mapping rows) [ none ↦ none | some rs ↦ some (r ∷ rs) ]
  ]

mpns_of : List BomRow → List String
mpns_of [] = []
mpns_of (r ∷ rows) = elim r.mpn [ none ↦ mpns_of rows | some mpn ↦ mpn ∷ mpns_of rows ]

text_le : String → String → Bool
text_le s t = elim (compare s t) [ Ordering.gt ↦ false | _ ↦ true ]

mapping_json : List (String × ℕ) → Fields
mapping_json [] = end
mapping_json ((name, idx) ∷ rest) = field name (num (pos idx)) (mapping_json rest)

-- What a file's rows come to: the cells of all rows, the header's first, or the message of an
-- exception.
pub data Sheet : Type 0 where
  cells : List (List String) → Sheet
  unreadable : String → Sheet

headers_of : List (List String) → List String
headers_of [] = []
headers_of (h ∷ _) = h

body_of : List (List String) → List (List String)
body_of [] = []
body_of (_ ∷ rows) = rows

-- "mpn" not in mapping and "ref" not in mapping
no_columns : List (String × ℕ) → Bool
no_columns mapping = elim (lookup "mpn" mapping) [
  | some _ ↦ false
  | none ↦ elim (lookup "ref" mapping) [ none ↦ true | some _ ↦ false ]
]

raise : String → ParsedOutput → ParsedOutput
raise message output = record output {
  errors = output.errors ++ (append "parse error: " message ∷ []);
}

module _ (reading : Reading) where
  -- The output, and the part numbers whose enrichment is asked for.
  unfoldable pub read_sheet : Sheet → ParsedOutput → ParsedOutput × List String
  unfolding no_columns mpns_of text_le mapping_json headers_of body_of raise
  read_sheet (unreadable message) output = (raise message output, [])
  read_sheet (cells all) output =
      let mapping = normalize_headers (headers_of all) in
      if no_columns mapping
      then (
        record output {
          warnings = output.warnings ++ ("missing required columns (MPN or Reference)" ∷ []);
        },
        [],
      )
      else elim (bom_rows_of reading mapping (body_of all)) [
        | none ↦ (raise "cannot convert float infinity to integer" output, [])
        | some rows ↦ (
          record output {
            bom_rows = rows;
            extracted_metadata =
                set_field "column_mapping" (obj (mapping_json mapping))
                  (set_field "row_count" (num (pos (length rows))) output.extracted_metadata);
          },
          sort_by text_le (distinct (mpns_of rows)),
        )
      ]

  -- BOMParser.parse at the time `now`
  unfoldable pub parse : ℕ → Sheet → ParseContext → ParsedOutput × List String
  parse now sheet context =
      let output = record (base_output "BOMParser" "BOM" now context) {
        parser_version = "1.0.0";
      } in
      let (read, mpns) = read_sheet sheet output in (apply_capabilities read, mpns)
