-- ===== src/Hos/Merges/Listing.antt =====
-- What `list_conflicts` answers.
use hcp.Prelude.{
  ℕ, ◌≡◌, sym, ap, ◌∙◌, Bool, List, any, select, sort_by, inl, inr, Option-cases, first_where, ◌==◌,
  ◌&&◌,
}
use hcp.Prelude.Sorting.{any-sort_by}
use hcp.Auth.{CurrentUser}
use hcp.Db.{Project, Conflict, Session}
use hcp.Action.{Result, ok, err, project_not_found, merge_not_found}
use hcp.Access.{require_project}
use hcp.Hos.Merges.{merge_at, conflict_of, conflict_path_le, list_conflicts}

-- A test holds of some conflict that is listed exactly if it holds of some conflict of the merge.
pub any-list_conflicts :
    (p : Conflict → Bool) (user : CurrentUser) (project merge_id : ℕ) (cs : List Conflict)
    (s t : Session)
    → list_conflicts user project merge_id s ≡ (ok cs, t)
    → any p cs ≡ any p (select (conflict_of user project merge_id) s.current.conflicts)
unfolding list_conflicts require_project
any-list_conflicts p user project merge_id cs s t h =
    elim (Option-cases (
      first_where (λ (q : Project). q.id == project && (q.org_id == user.org_id))
        s.current.projects)) [
          | inl gone ↦
              let e : ◌≡◌ {A = Result (List Conflict) × Session} (err project_not_found, s)
                  (ok cs, t) =
                rw gone at h in
              cc e
          | inr (q, here) ↦
              elim (Option-cases (first_where (merge_at user project merge_id) s.current.merges)) [
                | inl gone ↦
                    let e : ◌≡◌ {A = Result (List Conflict) × Session} (err merge_not_found, s)
                        (ok cs, t) =
                      rw (here, gone) at h in
                    cc e
                | inr (m, found) ↦
                    let e : ◌≡◌ {A = Result (List Conflict) × Session}
                        (
                          ok (
                              sort_by conflict_path_le
                                (select (conflict_of user project merge_id) s.current.conflicts)),
                          s,
                        )
                        (ok cs, t) =
                      rw (here, found) at h in
                    let same : sort_by conflict_path_le
                          (select (conflict_of user project merge_id) s.current.conflicts)
                        ≡ cs =
                      cc in
                    ap (any p) (sym same)
                    ∙ any-sort_by conflict_path_le p
                        (select (conflict_of user project merge_id) s.current.conflicts)
              ]
        ]
