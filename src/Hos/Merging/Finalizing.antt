-- ===== src/Hos/Merging/Finalizing.antt =====
-- When a merge with conflicts is completed.
use hcp.Prelude.{
  ℕ, ◌≡◌, refl, sym, ◌∙◌, true, false, Option, none, some, List, [], ◌∷◌, any, select, first_where,
  str_eq, inl, inr, Bool-cases,
}
use hcp.Auth.{CurrentUser}
use hcp.Db.{Commit, Merge, Conflict, Session}
use hcp.Action.{Result, ok, bind, bind-eq-ok}
use hcp.Events.{Runtime}
use hcp.Hnf.{Validation}
use hcp.Hos.Merges.{NewIds, merge_at, conflict_of, list_conflicts}
use hcp.Hos.Merges.Listing.{any-list_conflicts}
use hcp.Hos.Merging.{unresolved, finalize_conflicts, finalize_found, try_finalize_merge}

module _ (rt : Runtime) (v : Validation) (fuel : ℕ) (user : CurrentUser) (project : ℕ)
    (ids : NewIds) (now : ℕ) (c : Commit) where
  finalize_conflicts-resolved :
      (row : Merge) (cs : List Conflict) (s : Session)
      → (finalize_conflicts rt v fuel user project ids now row cs s).0 ≡ ok (some c)
      → any unresolved cs ≡ false
  unfolding finalize_conflicts
  finalize_conflicts-resolved row [] s h = cc
  finalize_conflicts-resolved row (d ∷ ds) s h = elim (Bool-cases (any unresolved (d ∷ ds))) [
    | inr none_left ↦ none_left
    | inl open_one ↦
        let e : ◌≡◌ {A = Result (Option Commit)} (ok none) (ok (some c)) =
          rw (open_one, finalize_conflicts) at h in
        cc e
  ]

  finalize_found-resolved :
      (found : Option Merge) (s : Session)
      → (finalize_found rt v fuel user project ids now found s).0 ≡ ok (some c)
      → (row : Merge) × (found ≡ some row)
        × (str_eq row.status "conflicts" ≡ true)
        × (any unresolved (select (conflict_of user project row.id) s.current.conflicts) ≡ false)
  unfolding finalize_found
  finalize_found-resolved none s h = cc
  finalize_found-resolved (some row) s h = elim (Bool-cases (str_eq row.status "conflicts")) [
    | inr other ↦
        let e : ◌≡◌ {A = Result (Option Commit)} (ok none) (ok (some c)) =
          rw (other, finalize_found) at h in
        cc e
    | inl open_merge ↦
        let h1 : (bind (list_conflicts user project row.id s)
              (finalize_conflicts rt v fuel user project ids now row)).0
            ≡ ok (some c) =
          rw (open_merge, finalize_found) at h in
        let (cs, t, listed, h2) = bind-eq-ok (list_conflicts user project row.id s) _ h1 in
        (
          row,
          refl,
          open_merge,
          sym (any-list_conflicts unresolved user project row.id cs s t listed)
              ∙ finalize_conflicts-resolved row cs t h2,
        )
  ]

  -- A merge is completed only if its status is "conflicts" and none of its conflicts is unresolved.
  pub try_finalize_merge-resolved :
      (merge_id : ℕ) (s : Session)
      → (try_finalize_merge rt v fuel user project ids now merge_id s).0 ≡ ok (some c)
      → (row : Merge) × (first_where (merge_at user project merge_id) s.current.merges ≡ some row)
        × (str_eq row.status "conflicts" ≡ true)
        × (any unresolved (select (conflict_of user project row.id) s.current.conflicts) ≡ false)
  unfolding try_finalize_merge
  try_finalize_merge-resolved merge_id s h =
      finalize_found-resolved (first_where (merge_at user project merge_id) s.current.merges) s h
