-- ===== src/Boms/Hidden.antt =====
-- A row that the difference of two bills of materials does not see.
use hcp.Prelude.{
  ◌≡◌, refl, sym, ap, subst, String, List, [], ◌∷◌, ◌++◌, str_eq, eq_refl, inl, inr, Bool-cases,
}
use hcp.Json.Dict.{Dict, insert}
use hcp.Parser.Schema.{BomRow}
use hcp.Boms.{row_key, by_key, diff_rows}

insert_twice :
    (key : String) (row later : BomRow) (d : Dict BomRow)
    → insert key later (insert key row d) ≡ insert key later d
unfolding insert
insert_twice key row later [] = rw (eq_refl key) refl
insert_twice key row later ((k, old) ∷ d) = elim (Bool-cases (str_eq k key)) [
  | inl e ↦ rw (e, e) refl
  | inr e ↦ rw (e, e) (ap (λ m. (k, old) ∷ m) (insert_twice key row later d))
]

by_key_hidden :
    (before : List BomRow) (row later : BomRow) (rows : List BomRow) (d : Dict BomRow)
    → row_key row ≡ row_key later
    → by_key (before ++ (row ∷ later ∷ rows)) d ≡ by_key (before ++ (later ∷ rows)) d
unfolding by_key
by_key_hidden [] row later rows d same = ap (by_key rows) (
    subst (λ k. insert (row_key later) later (insert k row d) ≡ insert (row_key later) later d)
      (sym same) (insert_twice (row_key later) row later d))
by_key_hidden (first ∷ before) row later rows d same =
    by_key_hidden before row later rows (insert (row_key first) first d) same

-- Where a row is followed by one of the same key, as a row without a number and a manufacturer is by
-- another such row, it does not count: the difference is what it is without the row.
earlier_row_hidden :
    (before : List BomRow) (row later : BomRow) (rows_a rows_b : List BomRow)
    → row_key row ≡ row_key later
    → diff_rows (before ++ (row ∷ later ∷ rows_a)) rows_b
      ≡ diff_rows (before ++ (later ∷ rows_a)) rows_b
unfolding diff_rows
earlier_row_hidden before row later rows_a rows_b same =
    rw (by_key_hidden before row later rows_a [] same) refl
