-- ===== src/Boms.antt =====
-- api/app/services/bom.py: the bill of materials of an object, of all that it contains, and the
-- difference of two versions.
pub mod Flat
pub mod Keys
pub mod Differences
pub mod Hidden
use Prim.Native.String.{◌++◌ as append_text}
use hcp.Prelude.{
  ℕ, zero, suc, String, Bool, true, false, ◌&&◌, not, Option, none, some, List, [], ◌∷◌, ◌++◌, ◌==◌,
  ℤ, pos, negsuc, str_eq, if◌then◌else◌,
}
use hcp.Json.Dict.{Dict, lookup, insert}
use hcp.Db.{Version, Db}
use hcp.Objects.{get_object, list_versions, get_version}
use hcp.Parser.Schema.{BomRow, ParsedOutput, Component}
use hcp.GraphLinks.{Answer, answer, refused, key_error, neo4j_error, Link, Links, edges_for, out_of}

pub record Bom : Type 0 where
  pub version_num : ℕ
  pub rows : List BomRow
  pub components : List Component

-- Where the parser's outputs are stored, and how identifiers are written and read; `none` is the
-- ValueError of uuid.UUID.
pub record Outside : Type 0 where
  pub download : String → ParsedOutput
  pub uuid_text : ℕ → String
  pub parse_uuid : String → Option ℕ

module _ (outside : Outside) (db : Db) (org_id : ℕ) where
  unfoldable pub get_parsed_json : Version → Option ParsedOutput
  get_parsed_json version =
      if str_eq version.parse_status "complete"
      then elim version.parsed_key [
        | none ↦ none
        | some key ↦ if str_eq key "" then none else some (outside.download key)
      ]
      else none

  bom_of : Version → Bom
  bom_of version = elim (get_parsed_json version) [
    | none ↦ record { version_num = version.version_num; rows = []; components = [] }
    | some parsed ↦ record {
      version_num = version.version_num;
      rows = parsed.bom_rows;
      components = parsed.components;
    }
  ]

  newest : List Version → Answer Bom
  unfolding bom_of
  newest [] = refused "no_versions"
  newest (version ∷ _) = answer (bom_of version)

  unfoldable pub get_bom : ℕ → Option ℕ → Answer Bom
  unfolding bom_of newest
  get_bom object_id version_num = elim (get_object object_id org_id db) [
    | none ↦ refused "not_found"
    | some _ ↦ elim version_num [
      | none ↦ newest (list_versions object_id org_id db)
      | some num ↦ elim (get_version object_id num org_id db) [
        | none ↦ refused "version_not_found"
        | some version ↦ answer (bom_of version)
      ]
    ]
  ]

abbrev pub prepend : List BomRow → Option (Answer (List BomRow)) → Option (Answer (List BomRow))
prepend rows (some (answer rest)) = some (answer (rows ++ rest))
prepend rows outcome = outcome

-- A ValueError of a child passes it over; other exceptions, and a child that does not end, do not.
abbrev pub after_child :
    Option (Answer (List BomRow)) → Option (Answer (List BomRow)) → Option (Answer (List BomRow))
after_child none rest = none
after_child (some (answer rows)) rest = prepend rows rest
after_child (some (refused _)) rest = rest
after_child (some key_error) rest = some key_error
after_child (some neo4j_error) rest = some neo4j_error

abbrev pub Rows : Type 0
Rows = Answer (List BomRow)

abbrev pub contains : Link → Bool
contains edge = str_eq edge.relationship_type "CONTAINS"

-- The rows of what the edges contain. A child that is no UUID is outside the try.
unfoldable pub children_rows :
    Outside → (ℕ → Option (Answer (List BomRow))) → List Link → Option (Answer (List BomRow))
children_rows outside child [] = some (answer [])
children_rows outside child (edge ∷ edges) =
    let rest = children_rows outside child edges in
    if contains edge
    then elim (outside.parse_uuid edge.to_id) [
      | none ↦ some (refused "badly formed hexadecimal UUID string")
      | some id ↦ after_child (child id) rest
    ]
    else rest

abbrev pub below :
    Outside
    → (ℕ → Option (Answer (List BomRow)))
    → Answer Bom
    → Answer (List Link)
    → Option (Answer (List BomRow))
below outside child (answer bom) (answer edges) =
    prepend bom.rows (children_rows outside child edges)
below outside child (answer bom) (refused e) = some (refused e)
below outside child (answer bom) key_error = some key_error
below outside child (answer bom) neo4j_error = some neo4j_error
below outside child (refused e) edges = some (refused e)
below outside child key_error edges = some key_error
below outside child neo4j_error edges = some neo4j_error

module _ (outside : Outside) (db : Db) (org_id : ℕ) (links : Links) where
  -- The rows of flat_bom; `none` means that the fuel ran out.
  unfoldable pub flat_bom : ℕ → ℕ → Option (Answer (List BomRow))
  unfolding get_bom children_rows
  flat_bom zero object_id = none
  flat_bom (suc f) object_id =
      below outside (flat_bom f) (get_bom outside db org_id object_id none)
        (edges_for (outside.uuid_text org_id) (outside.uuid_text object_id) out_of links)

-- How an f-string writes an optional text.
text_or_none : Option String → String
text_or_none none = "None"
text_or_none (some s) = s

unfoldable pub row_key : BomRow → String
unfolding text_or_none
row_key row = append_text (text_or_none row.mpn) (append_text ":" (text_or_none row.manufacturer))

unfoldable pub by_key : List BomRow → Dict BomRow → Dict BomRow
unfolding row_key
by_key [] rows = rows
by_key (row ∷ rest) rows = by_key rest (insert (row_key row) row rows)

pub record BomDiff : Type 0 where
  pub added : List BomRow
  pub removed : List BomRow
  pub changed : List (BomRow × BomRow)

-- the rows of a dict whose keys the other dict has not
unfoldable pub missing_from : Dict BomRow → Dict BomRow → List BomRow
missing_from other [] = []
missing_from other ((key, row) ∷ rest) = elim (lookup key other) [
  | none ↦ row ∷ missing_from other rest
  | some _ ↦ missing_from other rest
]

eq_int : ℤ → ℤ → Bool
eq_int (pos a) (pos b) = a == b
eq_int (negsuc a) (negsuc b) = a == b
eq_int _ _ = false

eq_text : Option String → Option String → Bool
eq_text none none = true
eq_text (some s) (some t) = str_eq s t
eq_text _ _ = false

eq_texts : List String → List String → Bool
eq_texts [] [] = true
eq_texts (s ∷ ss) (t ∷ ts) = let rest = eq_texts ss ts in str_eq s t && rest
eq_texts _ _ = false

unfoldable pub row_eq : BomRow → BomRow → Bool
unfolding eq_int eq_text eq_texts
row_eq a b =
    eq_texts a.ref_designators b.ref_designators
    && (eq_text a.mpn b.mpn
        && (eq_text a.manufacturer b.manufacturer
            && (eq_int a.quantity b.quantity
                && (eq_text a.description b.description
                    && eq_text a.unit_price_usd b.unit_price_usd))))

unfoldable pub changed_rows : Dict BomRow → Dict BomRow → List (BomRow × BomRow)
unfolding row_eq
changed_rows [] other = []
changed_rows ((key, row) ∷ rest) other = elim (lookup key other) [
  | none ↦ changed_rows rest other
  | some after ↦
      let later = changed_rows rest other in
      if row_eq row after then later else (row, after) ∷ later
]

unfoldable pub diff_rows : List BomRow → List BomRow → BomDiff
unfolding by_key missing_from changed_rows
diff_rows rows_a rows_b =
    let map_a = by_key rows_a [] in
    let map_b = by_key rows_b [] in
    record {
      added = missing_from map_a map_b;
      removed = missing_from map_b map_a;
      changed = changed_rows map_a map_b;
    }

abbrev pub both_boms : Answer Bom → Answer Bom → Answer BomDiff
both_boms (answer a) (answer b) = answer (diff_rows a.rows b.rows)
both_boms (answer a) (refused e) = refused e
both_boms (answer a) key_error = key_error
both_boms (answer a) neo4j_error = neo4j_error
both_boms (refused e) _ = refused e
both_boms key_error _ = key_error
both_boms neo4j_error _ = neo4j_error

-- BOMService.diff
unfoldable pub bom_diff : Outside → Db → ℕ → ℕ → ℕ → ℕ → Answer BomDiff
unfolding get_bom
bom_diff outside db org_id object_id version_a version_b =
    both_boms (get_bom outside db org_id object_id (some version_a))
      (get_bom outside db org_id object_id (some version_b))
