-- ===== src/Hos/Commits/Queries.antt =====
-- What the queries for one row answer, and that they change nothing.
use hcp.Prelude.{ℕ, ◌≡◌, refl, some, inl, inr, Option-cases, first_where, ◌==◌, ◌&&◌}
use hcp.Auth.{CurrentUser}
use hcp.Db.{Branch, Project, Session}
use hcp.Action.{Error, Result, ok, err, branch_not_found, project_not_found}
use hcp.Access.{require_project}
use hcp.Hos.Commits.{branch_at, commit_at, find_commit, get_branch}

pub find_commit-state :
    (user : CurrentUser) (project id : ℕ) (e : Error) (s : Session)
    → (find_commit user project id e s).1 ≡ s
unfolding find_commit
find_commit-state user project id e s =
    elim (Option-cases (first_where (commit_at user project id) s.current.commits)) [
      | inl gone ↦ rw gone refl
      | inr (c, found) ↦ rw found refl
    ]

pub get_branch-ok :
    (user : CurrentUser) (project branch_id : ℕ) (branch : Branch) (s t : Session)
    → get_branch user project branch_id s ≡ (ok branch, t)
    → (first_where (branch_at user project branch_id) s.current.branches ≡ some branch) × (t ≡ s)
unfolding get_branch require_project
get_branch-ok user project branch_id branch s t h =
    elim (Option-cases (
      first_where (λ (p : Project). p.id == project && (p.org_id == user.org_id))
        s.current.projects)) [
          | inl gone ↦
              let e : ◌≡◌ {A = Result Branch × Session} (err project_not_found, s) (ok branch, t) =
                rw gone at h in
              cc e
          | inr (p, here) ↦
              elim (Option-cases
                (first_where (branch_at user project branch_id) s.current.branches)) [
                  | inl gone ↦
                      let e : ◌≡◌ {A = Result Branch × Session} (err branch_not_found, s)
                          (ok branch, t) =
                        rw (here, gone) at h in
                      cc e
                  | inr (b, found) ↦
                      let e : ◌≡◌ {A = Result Branch × Session} (ok b, s) (ok branch, t) =
                        rw (here, found) at h in
                      (cc, cc)
                ]
        ]
