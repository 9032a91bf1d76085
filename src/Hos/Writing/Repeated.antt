-- ===== src/Hos/Writing/Repeated.antt =====
-- A commit that names a parent twice.
use hcp.Prelude.{ℕ, ◌≡◌, sym, ap, subst, ◌∙◌, false, Option, some, List, ◌==◌}
use hcp.Prelude.Table.{unique}
use hcp.Json.{null}
use hcp.Auth.{CurrentUser}
use hcp.Db.{rollback, Commit, Db, Session, open_session}
use hcp.Action.{integrity_error, Result, ok, err}
use hcp.Events.{Runtime, commit_created}
use hcp.Events.Publish.{logged}
use hcp.Access.{MayEdit}
use hcp.Hnf.{SnapshotInput, Validation}
use hcp.Hos.Writing.{CommitInput, resolve_parents, commit_event, add_commit, commit}
use hcp.Hos.Writing.Linking.{link_commit-repeated}
use hcp.Hos.Writing.Begun.{event-logged, add_commit-linked, commit-begun}

module _ (rt : Runtime) (v : Validation) (user : CurrentUser) (project : ℕ) where
  add_commit-repeated :
      (input : CommitInput) (branch_id now new_id : ℕ) (parents : List ℕ)
      (parsed : List SnapshotInput) (row : Commit) (s t : Session)
      → unique ◌==◌ parents ≡ false
      → logged rt (commit_created rt user.org_id project new_id user.id null) s.committed ≡ false
      → ¬ add_commit rt v user project input branch_id now new_id parents parsed s ≡ (ok row, t)
  add_commit-repeated input branch_id now new_id parents parsed row s t twice fresh answers =
      let (root_ref, u, kept, linking) =
        add_commit-linked rt v user project input branch_id now new_id parents parsed row s t
          answers in
      let unknown : logged rt (commit_event rt v user project new_id branch_id root_ref) u.committed
          ≡ false =
        event-logged rt v user project new_id branch_id root_ref u.committed
        ∙ ap (logged rt _) kept.committed
        ∙ fresh in
      let e : ◌≡◌ {A = Result (Unit {0}) × Session} (err integrity_error, rollback u) (ok tt, t) =
        sym
          (link_commit-repeated rt v user project new_id branch_id root_ref u parents twice unknown)
        ∙ linking in
      cc e

module _ (rt : Runtime) (v : Validation) (user : CurrentUser) (project : ℕ) (input : CommitInput)
    (branch_id now new_id snapshot_id : ℕ) (db : Db) (may : MayEdit user project db) where
  -- A commit by an editor that names a parent twice, anywhere in the list of its parents, never
  -- answers, unless the committed log has an event of it.
  pub commit-repeated :
      (parents : List ℕ) (row : Commit) (t : Session)
      → input.parent_commit_ids ≡ some parents
      → unique ◌==◌ parents ≡ false
      → logged rt (commit_created rt user.org_id project new_id user.id null) db ≡ false
      → ¬ commit rt v user project input branch_id now new_id snapshot_id (open_session db)
        ≡ (ok row, t)
  unfolding resolve_parents
  commit-repeated parents row t given twice fresh answers =
      let (branch, parsed, made, s, _, begun, _) =
        commit-begun rt v user project input branch_id now new_id snapshot_id db may row t
          answers in
      add_commit-repeated rt v user project input branch.id now new_id parents parsed made
        (open_session db) s twice fresh
        (subst
          (λ (ids : Option (List ℕ)).
            add_commit rt v user project input branch.id now new_id (resolve_parents ids branch)
              parsed (open_session db)
            ≡ (ok made, s))
          given begun)
