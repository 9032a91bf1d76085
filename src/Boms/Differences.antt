-- ===== src/Boms/Differences.antt =====
-- What the difference of two bills of materials lists.
use hcp.Prelude.{
  Listed, ◌≡◌, refl, sym, ap, ◌∙◌, subst, ◌↔◌, String, false, none, some, List, [], ◌∷◌, str_eq,
  eq_iff, eq_refl, inl, inr, Bool-cases, Option-cases, if◌then◌else◌,
}
use hcp.Boms.Keys.{last_of, Proper, by_key-Proper, lookup_behind, last_is-lookup}
use hcp.Json.Dict.{Dict, lookup}
use hcp.Parser.Schema.{BomRow}
use hcp.Boms.{row_key, by_key, missing_from, changed_rows, row_eq, diff_rows}

none-some : {x : BomRow} → none ≡ some x → ⊥
none-some e = cc e

some_inj : {x y : BomRow} → some x ≡ some y → x ≡ y
some_inj e = cc e

module _ (other : Dict BomRow) where
  missing_from-Listed :
      (d : Dict BomRow) (x : BomRow)
      → Proper d
      → Listed x (missing_from other d)
      → (lookup (row_key x) d ≡ some x) × (lookup (row_key x) other ≡ none)
  unfolding missing_from lookup
  missing_from-Listed [] x proper listed = absurd listed
  missing_from-Listed ((key, row) ∷ d) x (same, once, proper) listed =
      elim (Option-cases (lookup key other)) [
        | inr (y, e) ↦
            let (found, lost) =
              missing_from-Listed d x proper
                (subst (λ m. Listed x m) (rw (e, missing_from) refl) listed) in
            (lookup_behind key (row_key x) row x d once found, lost)
        | inl e ↦ elim (subst (λ m. Listed x m) (the_list e) listed) [
          | inl here ↦
              let at_key : key ≡ row_key x = sym same ∙ ap row_key here in
              (
                subst (λ k. (if str_eq key k then some row else lookup k d) ≡ some x) at_key
                    (rw (eq_refl key) (ap some here)),
                subst (λ k. lookup k other ≡ none) at_key e,
              )
          | inr there ↦
              let (found, lost) = missing_from-Listed d x proper there in
              (lookup_behind key (row_key x) row x d once found, lost)
        ]
      ]
    where
      the_list :
          lookup key other ≡ none → missing_from other ((key, row) ∷ d) ≡ row ∷ missing_from other d
      the_list e = rw (e, missing_from) refl

  Listed-missing_from :
      (j : String) (d : Dict BomRow) (x : BomRow)
      → lookup j d ≡ some x
      → lookup j other ≡ none
      → Listed x (missing_from other d)
  unfolding missing_from lookup
  Listed-missing_from j [] x found lost = absurd (none-some found)
  Listed-missing_from j ((key, row) ∷ d) x found lost = elim (Bool-cases (str_eq key j)) [
    | inl e ↦
        let gone : lookup key other ≡ none =
          subst (λ k. lookup k other ≡ none) (sym ((eq_iff key j).0 e)) lost in
        rw (gone, missing_from) (inl (some_inj (subst (λ o. o ≡ some x) (rw (e) refl) found)))
    | inr e ↦
        let later = Listed-missing_from j d x (subst (λ o. o ≡ some x) (rw (e) refl) found) lost in
        elim (Option-cases (lookup key other)) [
          | inl gone ↦ rw (gone, missing_from) (inr later)
          | inr (y, there) ↦ rw (there, missing_from) later
        ]
  ]

  changed_rows-Listed :
      (d : Dict BomRow) (x y : BomRow)
      → Proper d
      → Listed (x, y) (changed_rows d other)
      → (lookup (row_key x) d ≡ some x) × (lookup (row_key x) other ≡ some y) × (row_eq x y ≡ false)
  unfolding changed_rows lookup
  changed_rows-Listed [] x y proper listed = absurd listed
  changed_rows-Listed ((key, row) ∷ d) x y (same, once, proper) listed =
      let behind : Listed (x, y) (changed_rows d other)
          → (lookup (row_key x) ((key, row) ∷ d) ≡ some x)
            × (lookup (row_key x) other ≡ some y)
            × (row_eq x y ≡ false) =
        λ later.
          let (found, there, differs) = changed_rows-Listed d x y proper later in
          (lookup_behind key (row_key x) row x d once found, there, differs) in
      elim (Option-cases (lookup key other)) [
        | inl e ↦
            behind (
              subst (λ m. Listed {A = BomRow × BomRow} (x, y) m) (rw (e, changed_rows) refl) listed)
        | inr (after, e) ↦ elim (Bool-cases (row_eq row after)) [
          | inl r ↦ behind (
              subst (λ m. Listed {A = BomRow × BomRow} (x, y) m) (rw (e, r, changed_rows) refl)
                listed)
          | inr r ↦
              elim (subst (λ m. Listed {A = BomRow × BomRow} (x, y) m) (the_list after e r)
                listed) [
                  | inr there ↦ behind there
                  | inl here ↦
                      let row_x : row ≡ x = ap (λ (p : BomRow × BomRow). p.0) here in
                      let after_y : after ≡ y = ap (λ (p : BomRow × BomRow). p.1) here in
                      let at_key : key ≡ row_key x = sym same ∙ ap row_key row_x in
                      (
                        subst (λ k. (if str_eq key k then some row else lookup k d) ≡ some x) at_key
                            (rw (eq_refl key) (ap some row_x)),
                        subst (λ k. lookup k other ≡ some y) at_key (e ∙ ap some after_y),
                        subst (λ b. row_eq b y ≡ false) row_x
                            (subst (λ a. row_eq row a ≡ false) after_y r),
                      )
                ]
        ]
      ]
    where
      the_list :
          (after : BomRow)
          → lookup key other ≡ some after
          → row_eq row after ≡ false
          → changed_rows ((key, row) ∷ d) other ≡ (row, after) ∷ changed_rows d other
      the_list after e r = rw (e, r, changed_rows) refl

  Listed-changed_rows :
      (j : String) (d : Dict BomRow) (x y : BomRow)
      → lookup j d ≡ some x
      → lookup j other ≡ some y
      → row_eq x y ≡ false
      → Listed (x, y) (changed_rows d other)
  unfolding changed_rows lookup
  Listed-changed_rows j [] x y found there differs = absurd (none-some found)
  Listed-changed_rows j ((key, row) ∷ d) x y found there differs =
      elim (Bool-cases (str_eq key j)) [
        | inl e ↦
            let at : lookup key other ≡ some y =
              subst (λ k. lookup k other ≡ some y) (sym ((eq_iff key j).0 e)) there in
            let row_x : row ≡ x = some_inj (subst (λ o. o ≡ some x) (rw (e) refl) found) in
            let differ : row_eq row y ≡ false =
              subst (λ r. row_eq r y ≡ false) (sym row_x) differs in
            rw (at, differ, changed_rows) (inl (ap (λ (r : BomRow). (r, y)) row_x))
        | inr e ↦
            let later =
              Listed-changed_rows j d x y (subst (λ o. o ≡ some x) (rw (e) refl) found) there
                differs in
            elim (Option-cases (lookup key other)) [
              | inl gone ↦ rw (gone, changed_rows) later
              | inr (after, found_after) ↦ elim (Bool-cases (row_eq row after)) [
                | inl r ↦ rw (found_after, r, changed_rows) later
                | inr r ↦ rw (found_after, r, changed_rows) (inr later)
              ]
            ]
      ]

-- Of two bills of materials, the rows that are listed as added are those that are the last of their
-- key in the second, the first having none of the key; the rows that are removed, the other way
-- around; and the pairs that are listed as changed are those of the last rows of one key in both
-- that are not equal.
pub diff_rows_exact :
    (rows_a rows_b : List BomRow) (x : BomRow)
    → (Listed x (diff_rows rows_a rows_b).added
        ↔ ((last_of (row_key x) rows_b ≡ some x) × (last_of (row_key x) rows_a ≡ none)))
      × (Listed x (diff_rows rows_a rows_b).removed
          ↔ ((last_of (row_key x) rows_a ≡ some x) × (last_of (row_key x) rows_b ≡ none)))
      × ((y : BomRow)
          → Listed (x, y) (diff_rows rows_a rows_b).changed ↔ (
              (last_of (row_key x) rows_a ≡ some x)
              × (last_of (row_key x) rows_b ≡ some y)
              × (row_eq x y ≡ false)))
unfolding diff_rows
diff_rows_exact rows_a rows_b x =
    let a = by_key rows_a [] in
    let b = by_key rows_b [] in
    let at_a = last_is-lookup (row_key x) rows_a in
    let at_b = last_is-lookup (row_key x) rows_b in
    let proper_a = by_key-Proper rows_a [] tt in
    let proper_b = by_key-Proper rows_b [] tt in
    (
      (
        λ listed.
            let (found, lost) = missing_from-Listed a b x proper_b listed in
            (sym at_b ∙ found, sym at_a ∙ lost),
        λ (found, lost). Listed-missing_from a (row_key x) b x (at_b ∙ found) (at_a ∙ lost),
      ),
      (
        λ listed.
            let (found, lost) = missing_from-Listed b a x proper_a listed in
            (sym at_a ∙ found, sym at_b ∙ lost),
        λ (found, lost). Listed-missing_from b (row_key x) a x (at_a ∙ found) (at_b ∙ lost),
      ),
      λ y. (
        λ listed.
            let (found, there, differs) = changed_rows-Listed b a x y proper_a listed in
            (sym at_a ∙ found, sym at_b ∙ there, differs),
        λ (found, there, differs).
            Listed-changed_rows b (row_key x) a x y (at_a ∙ found) (at_b ∙ there) differs,
      ),
    )
