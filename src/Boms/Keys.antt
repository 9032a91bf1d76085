-- ===== src/Boms/Keys.antt =====
-- The rows of a bill of materials by their keys: the dict has the last row of each.
use hcp.Prelude.{
  ◌≡◌, refl, sym, ◌∙◌, subst, String, Option, none, some, List, [], ◌∷◌, str_eq, eq_iff, arith, inl,
  inr, Bool-cases, Option-cases, if◌then◌else◌,
}
use hcp.Json.Dict.{Dict, lookup, insert, lookup-insert}
use hcp.Parser.Schema.{BomRow}
use hcp.Boms.{row_key, by_key}

-- the last row with a key
unfoldable pub last_of : String → List BomRow → Option BomRow
last_of key [] = none
last_of key (row ∷ rows) = elim (last_of key rows) [
  | some later ↦ some later
  | none ↦ if str_eq (row_key row) key then some row else none
]

abbrev or_in : Option BomRow → Option BomRow → Option BomRow
or_in (some row) other = some row
or_in none other = other

lookup-by_key :
    (key : String) (rows : List BomRow) (d : Dict BomRow)
    → lookup key (by_key rows d) ≡ or_in (last_of key rows) (lookup key d)
unfolding by_key last_of
lookup-by_key key [] d = refl
lookup-by_key key (row ∷ rows) d = elim (Option-cases (last_of key rows)) [
  | inr (later, e) ↦ rw (e) (lookup-by_key key rows _ ∙ rw (e) refl)
  | inl e ↦ rw (e) (
      lookup-by_key key rows (insert (row_key row) row d)
      ∙ rw (e, lookup-insert (row_key row) key row d)
          (elim (Bool-cases (str_eq (row_key row) key)) [
            | inl k ↦ rw (k) refl
            | inr k ↦ rw (k) refl
          ]))
]

-- No key is there twice, and each row stands under its key.
abbrev pub Proper : Dict BomRow → Type 0
Proper [] = Unit {0}
Proper ((key, row) ∷ d) = (row_key row ≡ key) × (lookup key d ≡ none) × Proper d

insert-Proper : (row : BomRow) (d : Dict BomRow) → Proper d → Proper (insert (row_key row) row d)
unfolding insert lookup
insert-Proper row [] proper = (refl, refl, tt)
insert-Proper row ((key, old) ∷ d) (same, once, proper) =
    elim (Bool-cases (str_eq key (row_key row))) [
      | inl e ↦ rw (e) (sym ((eq_iff key (row_key row)).0 e), once, proper)
      | inr e ↦ rw (e) (
        same,
        lookup-insert (row_key row) key row d
            ∙ ground (arith, eq_iff key (row_key row), eq_iff (row_key row) key),
        insert-Proper row d proper,
      )
    ]

pub by_key-Proper : (rows : List BomRow) (d : Dict BomRow) → Proper d → Proper (by_key rows d)
unfolding by_key
by_key-Proper [] d proper = proper
by_key-Proper (row ∷ rows) d proper =
    by_key-Proper rows (insert (row_key row) row d) (insert-Proper row d proper)

-- An entry is found behind another whose key is not there.
pub lookup_behind :
    (key j : String) (row x : BomRow) (d : Dict BomRow)
    → lookup key d ≡ none
    → lookup j d ≡ some x
    → lookup j ((key, row) ∷ d) ≡ some x
unfolding lookup
lookup_behind key j row x d once found = elim (Bool-cases (str_eq key j)) [
  | inr e ↦ rw (e) found
  | inl e ↦
      absurd (some_none (sym found ∙ subst (λ k. lookup k d ≡ none) ((eq_iff key j).0 e) once))
]
  where
    some_none : {y : BomRow} → some y ≡ none → ⊥
    some_none e = cc e

or_in-none : (o : Option BomRow) → or_in o none ≡ o
or_in-none none = refl
or_in-none (some row) = refl

pub last_is-lookup :
    (key : String) (rows : List BomRow) → lookup key (by_key rows []) ≡ last_of key rows
unfolding lookup
last_is-lookup key rows = lookup-by_key key rows [] ∙ or_in-none (last_of key rows)
