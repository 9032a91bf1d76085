-- ===== src/Hos/Writing/Begun.antt =====
-- What a commit that answers has gone through.
use hcp.Prelude.{
  ℕ, ◌≡◌, refl, sym, ap, subst, ◌∙◌, String, false, Option, some, List, [], ◌∷◌, ◌++◌, first_where,
}
use hcp.Json.{null}
use hcp.Auth.{CurrentUser}
use hcp.Db.{event_clash, Branch, Commit, Db, Session, open_session}
use hcp.Action.{gets, ◌>>=◌, ok, pure, bind, bind-eq, bind-state, flush, parent_commit_not_found}
use hcp.Events.{Runtime, event_row, commit_created}
use hcp.Events.Publish.{logged}
use hcp.Access.{MayEdit, as_editor-pass}
use hcp.Hnf.{SnapshotInput, Validation}
use hcp.Hos.Commits.{branch_at, find_commit, get_branch}
use hcp.Hos.Commits.Queries.{find_commit-state, get_branch-ok}
use hcp.Hos.Writing.{
  CommitInput, resolve_parents, check_parents, store_snapshots, commit_event, link_commit,
  add_commit, commit, commit_row, list_or_empty, fields_or_empty, parse_snapshots, scene_snapshot,
  reload_commit,
}
use hcp.Hos.Writing.Kept.{Kept, Kept-trans, Kept-after, flush-Kept, store_snapshots-Kept}

check_parents-state :
    (user : CurrentUser) (project : ℕ) (ids : List ℕ) (s : Session)
    → (check_parents user project ids s).1 ≡ s
unfolding check_parents
check_parents-state user project [] s = refl
check_parents-state user project (id ∷ ids) s =
    bind-state s (find_commit user project id parent_commit_not_found s) _
      (find_commit-state user project id parent_commit_not_found s)
      (λ c t. check_parents-state user project ids t)

pub snd_eq {ℓ} :
    {A : Type ℓ} {a b : A} {s t : Session} → ◌≡◌ {A = A × Session} (a, s) (b, t) → s ≡ t
snd_eq e = ap (λ (r : _ × Session). r.1) e

-- the transaction with the row of a new commit
abbrev pub with_row : Commit → Session → Session
with_row row s = record s { current = record s.current { commits = s.current.commits ++ row ∷ [] } }

module _ (rt : Runtime) (v : Validation) (user : CurrentUser) (project : ℕ) where
  -- Whatever its metadata, the event of a commit is known by the commit.
  pub event-logged :
      (commit_id branch_id : ℕ) (root_ref : Option String) (db : Db)
      → logged rt (commit_event rt v user project commit_id branch_id root_ref) db
        ≡ logged rt (commit_created rt user.org_id project commit_id user.id null) db
  unfolding commit_event commit_created event_row event_clash
  event-logged commit_id branch_id root_ref db = refl

  -- What `add_commit` does before it links the commit.
  pub add_commit-linked :
      (input : CommitInput) (branch_id now new_id : ℕ) (parents : List ℕ)
      (parsed : List SnapshotInput) (row : Commit) (s t : Session)
      → add_commit rt v user project input branch_id now new_id parents parsed s ≡ (ok row, t)
      → (root_ref : Option String) × (u : Session) × Kept
          (with_row (commit_row rt v user project input branch_id now new_id parsed) s)
          u
        × (link_commit rt v user project new_id branch_id parents root_ref u ≡ (ok tt, t))
  unfolding add_commit
  add_commit-linked input branch_id now new_id parents parsed row s t h =
      let (_, s1, e1, h1) = bind-eq (flush _) _ h in
      let (_, s2, e2, h2) =
        bind-eq
          (store_snapshots rt v user project new_id (list_or_empty input.object_snapshots) parsed
            s1)
          _ h1 in
      let (_, s3, e3, h3) =
        bind-eq (link_commit rt v user project new_id branch_id parents _ s2) _ h2 in
      let begun = with_row (commit_row rt v user project input branch_id now new_id parsed) s in
      let kept : Kept begun s2 = Kept-trans begun s1 s2 (Kept-after e1 (flush-Kept begun)) (
        Kept-after e2 (
          store_snapshots-Kept rt v user project new_id (list_or_empty input.object_snapshots)
            parsed s1)) in
      let same = snd_eq h3 in
      (
        (commit_row rt v user project input branch_id now new_id parsed).tree_root_ref,
        s2,
        kept,
        subst
            (λ (x : Session).
              link_commit rt v user project new_id branch_id parents
                (commit_row rt v user project input branch_id now new_id parsed).tree_root_ref s2
              ≡ (ok tt, x))
            same e3,
      )

module _ (rt : Runtime) (v : Validation) (user : CurrentUser) (project : ℕ) (input : CommitInput)
    (branch_id now new_id snapshot_id : ℕ) (db : Db) (may : MayEdit user project db) where
  -- A commit that answers has found its branch and stored its rows.
  pub commit-begun :
      (row : Commit) (t : Session)
      → commit rt v user project input branch_id now new_id snapshot_id (open_session db)
        ≡ (ok row, t)
      → (branch : Branch) × (parsed : List SnapshotInput) × (made : Commit) × (s : Session)
        × (first_where (branch_at user project branch_id) db.branches ≡ some branch)
        × (add_commit rt v user project input branch.id now new_id
              (resolve_parents input.parent_commit_ids branch)
              parsed
              (open_session db)
            ≡ (ok made, s))
        × (bind (scene_snapshot rt v user project input new_id snapshot_id s) (λ _.
              gets (λ db. db.commits) >>= λ rows. pure (reload_commit rt v user project made rows))
            ≡ (ok row, t))
  unfolding commit
  commit-begun row t h =
      let start = open_session db in
      let h0 = sym (as_editor-pass user project db _ may) ∙ h in
      let (branch, s1, e1, h1) = bind-eq (get_branch user project branch_id start) _ h0 in
      let (found, same1) = get_branch-ok user project branch_id branch start s1 e1 in
      let (_, s2, e2, h2) =
        bind-eq (check_parents user project (resolve_parents input.parent_commit_ids branch) s1) _
          h1 in
      let same2 =
        sym (snd_eq e2)
        ∙ check_parents-state user project (resolve_parents input.parent_commit_ids branch) s1
        ∙ same1 in
      let (parsed, s3, e3, h3) =
        bind-eq
          (
            parse_snapshots v rt (list_or_empty input.object_snapshots)
                (fields_or_empty input.tree),
            s2,
          )
          _ h2 in
      let same3 = sym (snd_eq e3) ∙ same2 in
      let (made, s4, e4, h4) =
        bind-eq
          (add_commit rt v user project input branch.id now new_id
            (resolve_parents input.parent_commit_ids branch) parsed s3)
          _ h3 in
      let begun =
        subst
          (λ (x : Session).
            add_commit rt v user project input branch.id now new_id
              (resolve_parents input.parent_commit_ids branch) parsed x
            ≡ (ok made, s4))
          same3 e4 in
      (branch, parsed, made, s4, found, begun, h4)

  -- What follows when no scene snapshot is asked for.
  pub scene-none :
      (s : Session) (made : Commit)
      → input.create_scene_snapshot ≡ false
      → (bind (scene_snapshot rt v user project input new_id snapshot_id s) (λ _.
          gets (λ db. db.commits) >>= λ rows. pure (reload_commit rt v user project made rows))).1
        ≡ s
  unfolding scene_snapshot
  scene-none s made plain = rw plain refl
