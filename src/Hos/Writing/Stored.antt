-- ===== src/Hos/Writing/Stored.antt =====
-- What a commit that answers leaves in the database.
use hcp.Prelude.{
  str_eq, eq_refl, ==_refl, any, ◌&&◌, Bool, none, true, map, ℕ, ◌≡◌, refl, sym, ap, subst, ◌∙◌,
  false, some, List, [], arith, ◌==◌, first_where, select, update_where,
}
use hcp.Prelude.Table.{any-snoc}
use hcp.Json.{null}
use hcp.Auth.{CurrentUser}
use hcp.Db.{Branch, Commit, CommitParent, Db, Session, open_session}
use hcp.Action.{Result, ok}
use hcp.Events.{Runtime, commit_created}
use hcp.Events.Publish.{logged}
use hcp.Access.{MayEdit}
use hcp.Hnf.{SnapshotInput, Validation}
use hcp.Hos.Lca.{parent_ids}
use hcp.Hos.Commits.{branch_at}
use hcp.Hos.Writing.{CommitInput, resolve_parents, add_commit, commit, commit_row}
use hcp.Hos.Writing.Linking.{link_commit-history, link_commit-ok}
use hcp.Hos.Writing.Begun.{event-logged, add_commit-linked, commit-begun, scene-none}
use hcp.Hos.Writing.Parents.{numbered}

-- The row that a request for a commit calls for, but for its tree.
abbrev pub calls_for : CurrentUser → ℕ → CommitInput → (branch_id now new_id : ℕ) → Commit → Bool
calls_for user project input branch_id now new_id c =
    c.id == new_id
    && (c.org_id == user.org_id)
    && (c.project_id == project)
    && elim c.branch_id [ none ↦ false | some b ↦ b == branch_id ]
    && str_eq c.message input.message
    && (c.created_by == user.id)
    && (c.created_at == now)

-- What is in the history of `t` after a commit to a branch in `db`: the commit, and it as the head of
-- the branch, the other branches as they were, and its parents, in an order that is not left open.
pub record InHistory (user : CurrentUser) (project : ℕ) (input : CommitInput)
    (branch_id now new_id : ℕ) (parents : List ℕ) (db t : Db) : Type 0 where
  pub stored : any (calls_for user project input branch_id now new_id) t.commits ≡ true
  pub heads :
      t.branches
      ≡ update_where
          (λ b. b.id == branch_id)
          (λ b. record b { head_commit_id = some new_id })
          db.branches
  pub order :
      map (λ r. r.parent_order) (select (λ r. r.commit_id == new_id) t.parents) ≡ numbered 0 parents
  pub read : parent_ids t.parents new_id ≡ parents

module _ (rt : Runtime) (v : Validation) (user : CurrentUser) (project : ℕ) where
  row-calls_for :
      (input : CommitInput) (branch_id now new_id : ℕ) (parsed : List SnapshotInput)
      → calls_for user project input branch_id now new_id
          (commit_row rt v user project input branch_id now new_id parsed)
        ≡ true
  unfolding commit_row
  row-calls_for input branch_id now new_id parsed = ground (
    arith,
    ==_refl new_id,
    ==_refl user.org_id,
    ==_refl project,
    ==_refl branch_id,
    eq_refl input.message,
    ==_refl user.id,
    ==_refl now,
  )

  add_commit-stored :
      (input : CommitInput) (branch_id now new_id : ℕ) (parents : List ℕ)
      (parsed : List SnapshotInput) (row : Commit) (s t : Session)
      → logged rt (commit_created rt user.org_id project new_id user.id null) s.committed ≡ false
      → select (λ r. r.commit_id == new_id) s.current.parents ≡ []
      → add_commit rt v user project input branch_id now new_id parents parsed s ≡ (ok row, t)
      → InHistory user project input branch_id now new_id parents s.current t.current
  add_commit-stored input branch_id now new_id parents parsed row s t fresh free h =
      let (root_ref, u, kept, linking) =
        add_commit-linked rt v user project input branch_id now new_id parents parsed row s t h in
      let made = commit_row rt v user project input branch_id now new_id parsed in
      let fresh_u =
        event-logged rt v user project new_id branch_id root_ref u.committed
        ∙ ap (logged rt _) kept.committed
        ∙ fresh in
      let free_u = ap (select (λ (r : CommitParent). r.commit_id == new_id)) kept.parents ∙ free in
      let good =
        link_commit-ok rt v user project new_id branch_id root_ref u parents fresh_u
          (ap (λ (r : Result (Unit {0}) × Session). r.0) linking) in
      let (_, order, read, commits, heads) =
        link_commit-history rt v user project new_id branch_id root_ref u parents
          (ground (arith, good)) (ground (arith, good)) (ground (arith, good)) free_u in
      let same = ap (λ (r : Result (Unit {0}) × Session). r.1.current) linking in
      let p = calls_for user project input branch_id now new_id in
      record {
        stored =
            ap (λ (x : Db). any p x.commits) (sym same)
            ∙ ap (any p) commits
            ∙ kept.commits p (λ c d. refl)
            ∙ any-snoc p s.current.commits made
            ∙ ground (arith, row-calls_for input branch_id now new_id parsed);
        heads =
            ap (λ (x : Db). x.branches) (sym same)
            ∙ heads
            ∙ ap
                (update_where (λ (b : Branch). b.id == branch_id)
                  (λ b. record b { head_commit_id = some new_id }))
                kept.branches;
        order =
            ap
              (λ (x : Db).
                map (λ (r : CommitParent). r.parent_order)
                  (select (λ (r : CommitParent). r.commit_id == new_id) x.parents))
              (sym same)
            ∙ order;
        read = ap (λ (x : Db). parent_ids x.parents new_id) (sym same) ∙ read;
      }

module _ (rt : Runtime) (v : Validation) (user : CurrentUser) (project : ℕ) (input : CommitInput)
    (branch_id now new_id snapshot_id : ℕ) (db : Db) (may : MayEdit user project db) where
  -- A commit by an editor that answers is stored, if it asks for no scene snapshot, its identifier
  -- has no parents yet, and the committed log has no event of it. Its branch is there; a row with the
  -- identifier, the organisation, the project, the branch, the message, the author and the time is
  -- among the commits; the branch has it as its head, and the other branches are as they were. Its
  -- rows of parents are numbered 0, 1, 2 and so on, and `_parent_ids` reads the parents that were
  -- given, or else the former head.
  pub commit-stored :
      (row : Commit) (t : Session)
      → input.create_scene_snapshot ≡ false
      → logged rt (commit_created rt user.org_id project new_id user.id null) db ≡ false
      → select (λ r. r.commit_id == new_id) db.parents ≡ []
      → commit rt v user project input branch_id now new_id snapshot_id (open_session db)
        ≡ (ok row, t)
      → (branch : Branch) × (first_where (branch_at user project branch_id) db.branches
          ≡ some branch)
        × InHistory user project input branch.id now new_id
            (resolve_parents input.parent_commit_ids branch)
            db
            t.current
  commit-stored row t plain fresh free h =
      let (branch, parsed, made, s, found, begun, rest) =
        commit-begun rt v user project input branch_id now new_id snapshot_id db may row t h in
      let history =
        add_commit-stored rt v user project input branch.id now new_id
          (resolve_parents input.parent_commit_ids branch) parsed made (open_session db) s fresh
          free begun in
      let same : s ≡ t =
        sym
          (scene-none rt v user project input branch_id now new_id snapshot_id db may s made plain)
        ∙ ap (λ (x : Result Commit × Session). x.1) rest in
      (
        branch,
        found,
        subst
            (λ (x : Session).
              InHistory user project input branch.id now new_id
                (resolve_parents input.parent_commit_ids branch) db x.current)
            same history,
      )
