-- ===== src/Parser/Bom/Columns.antt =====
-- Which columns parser/pral/core/bom.py reads.
use Prim.Native.Char.{code}
use hcp.Prelude.{
  ℕ, String, ◌≡◌, refl, sym, ◌∙◌, Bool, true, false, some, List, [], ◌∷◌, map, arith, any, ◌==◌,
  str_eq, eq_refl, Bool-cases, Option-cases, inl, inr,
}
use hcp.Text.{contains, has_prefix, append}
use hcp.ObjectTypes.{lookup}
use hcp.Parser.Bom.{normalize_key, names_column, first_index, map_columns, normalize_headers, cell}

has_prefix-append : (s t u : String) → has_prefix s (append t u) ≡ true → has_prefix s t ≡ true
unfolding has_prefix append
has_prefix-append s String.[] u h = refl
has_prefix-append String.[] (String.◌∷◌ d t) u h = absurd (cc h)
has_prefix-append (String.◌∷◌ c s) (String.◌∷◌ d t) u h =
    let first : (code c == code d) ≡ true = ground (arith, h) in
    let rest : has_prefix s (append t u) ≡ true = ground (arith, h) in
    rw (first, has_prefix-append s t u rest) refl

contains-append : (s t u : String) → contains (append t u) s ≡ true → contains t s ≡ true
unfolding contains
contains-append String.[] t u h = has_prefix-append String.[] t u h
contains-append (String.◌∷◌ c s) t u h =
    elim (Bool-cases (has_prefix (String.◌∷◌ c s) (append t u))) [
      | inl e ↦ rw (has_prefix-append (String.◌∷◌ c s) t u e) refl
      | inr e ↦
          let later : contains (append t u) s ≡ true = rw e at h in
          rw (contains-append s t u later) (ground arith)
    ]

mfr_contained : (s : String) → contains "mfr part" s ≡ true → contains "mfr" s ≡ true
unfolding append
mfr_contained s h = contains-append s "mfr" " part" h

names_mpn :
    (h : String)
    → contains "mfr part" h ≡ true
    → names_column
        ("mpn" ∷ "mfr part" ∷ "mfr part number" ∷ "manufacturer part number" ∷ "part number"
          ∷ "partnumber" ∷ "part #" ∷ "part" ∷ "pn" ∷ "p/n" ∷ [])
        h
      ≡ true
unfolding names_column any
names_mpn h e = rw e (ground arith)

names_manufacturer :
    (h : String)
    → contains "mfr part" h ≡ true
    → names_column ("manufacturer" ∷ "mfr" ∷ "vendor" ∷ "supplier" ∷ "make" ∷ []) h ≡ true
unfolding names_column any
names_manufacturer h e = rw (mfr_contained h e) (ground arith)

first_here :
    (p : String → Bool) (h : String) (hs : List String)
    → p h ≡ true
    → first_index p 0 (h ∷ hs) ≡ some 0
unfolding first_index
first_here p h hs e = rw e refl

lookup_here :
    (name : String) (aliases : List String) (rest : List (String × List String)) (h : String)
    (hs : List String)
    → names_column aliases h ≡ true
    → lookup name (map_columns ((name, aliases) ∷ rest) (h ∷ hs)) ≡ some 0
unfolding map_columns lookup
lookup_here name aliases rest h hs e =
    rw (first_here (names_column aliases) h hs e, map_columns, eq_refl) refl

lookup_skip :
    (key name : String) (aliases : List String) (rest : List (String × List String))
    (hs : List String)
    → str_eq name key ≡ false
    → lookup key (map_columns ((name, aliases) ∷ rest) hs) ≡ lookup key (map_columns rest hs)
unfolding map_columns lookup
lookup_skip key name aliases rest hs e =
    elim (Option-cases (first_index (names_column aliases) 0 hs)) [
      | inl k ↦ rw (k, map_columns) refl
      | inr (idx, k) ↦ rw (k, map_columns, e) refl
    ]

cell_by_column :
    (row : List String) (mapping : List (String × ℕ)) (a b : String)
    → lookup a mapping ≡ lookup b mapping
    → cell row mapping a ≡ cell row mapping b
unfolding cell
cell_by_column row mapping a b e = rw (e, cell) refl

mpn_column :
    (h : String) (hs : List String)
    → contains "mfr part" (normalize_key h) ≡ true
    → lookup "mpn" (normalize_headers (h ∷ hs)) ≡ some 0
unfolding normalize_headers
mpn_column h hs e =
    lookup_here "mpn" _ _ (normalize_key h) (map normalize_key hs) (names_mpn (normalize_key h) e)

manufacturer_column :
    (h : String) (hs : List String)
    → contains "mfr part" (normalize_key h) ≡ true
    → lookup "manufacturer" (normalize_headers (h ∷ hs)) ≡ some 0
unfolding normalize_headers
manufacturer_column h hs e =
    let keys = map normalize_key (h ∷ hs) in
    lookup_skip "manufacturer" "mpn" _ _ keys refl
    ∙ lookup_skip "manufacturer" "quantity" _ _ keys refl
    ∙ lookup_skip "manufacturer" "ref" _ _ keys refl
    ∙ lookup_here "manufacturer" _ _ (normalize_key h) (map normalize_key hs)
        (names_manufacturer (normalize_key h) e)

-- Where the first header says "mfr part", as "Mfr Part Number" does, the column of part numbers is
-- read as the manufacturer too, whatever headers follow.
pub mfr_part_is_manufacturer :
    (h : String) (hs row : List String)
    → contains "mfr part" (normalize_key h) ≡ true
    → (lookup "mpn" (normalize_headers (h ∷ hs)) ≡ some 0)
      × (cell row (normalize_headers (h ∷ hs)) "manufacturer"
          ≡ cell row (normalize_headers (h ∷ hs)) "mpn")
mfr_part_is_manufacturer h hs row e = (
  mpn_column h hs e,
  cell_by_column row (normalize_headers (h ∷ hs)) "manufacturer" "mpn"
      (manufacturer_column h hs e ∙ sym (mpn_column h hs e)),
)
