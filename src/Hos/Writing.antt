-- ===== src/Hos/Writing.antt =====
-- `create_branch` and `commit` of HosVersionControlService.
pub mod Parents
pub mod Linking
pub mod Kept
pub mod Begun
pub mod Stored
pub mod Repeated
pub mod Branching
pub mod Examples
use hcp.Scene.Snapshots.{create_snapshot}
use hcp.Prelude.{
  first_where, ℕ, zero, suc, ◌+◌, String, Bool, true, false, not, Option, none, some, List, [], ◌∷◌,
  ◌++◌, map, ◌==◌, if◌then◌else◌, update_where,
}
use hcp.Json.{
  Json, null, str, arr, obj, Fields, Items, nil, cons, end, field, get, has_field, set_field, strs,
  opt_str,
}
use hcp.Auth.{CurrentUser}
use hcp.Db.{Branch, Commit, CommitParent, Db, Session}
use hcp.Action.{
  gets, Action, Result, ok, err, pure, lift, raise, ◌>>=◌, ◌>>◌, modify, flush, commit_not_found,
  parent_commit_not_found,
}
use hcp.Events.{Runtime, Event, publish, commit_created}
use hcp.Access.{as_editor}
use hcp.Hnf.{SnapshotInput, Validation, legacy_tree_value, nonempty, snapshots_from_legacy_tree}
use hcp.Hnf.Rows.{persist_commit_snapshots}
use hcp.Hos.Commits.{write_audit, find_commit, get_branch}

pub new_branch : CurrentUser → ℕ → String → Option ℕ → ℕ → Branch
new_branch user project_id name head_commit_id new_id = record {
  id = new_id;
  org_id = user.org_id;
  project_id = project_id;
  name = name;
  head_commit_id = head_commit_id;
  created_by = user.id;
}

-- The commit that the new branch starts from.
pub branch_head : CurrentUser → ℕ → Option ℕ → Action (Option ℕ)
branch_head user project_id none = pure none
branch_head user project_id (some id) = do
  head ← find_commit user project_id id commit_not_found
  pure (some head.id)

module _ (rt : Runtime) where
  -- `create_branch` from the insertion on.
  add_branch : CurrentUser → ℕ → String → Option ℕ → (new_id : ℕ) → Option ℕ → Action Branch
  unfolding new_branch
  add_branch user project_id name from_commit_id new_id head_commit_id = do
    let branch = new_branch user project_id name head_commit_id new_id
    modify (λ db. record db { branches = db.branches ++ branch ∷ [] })
    flush
    write_audit user project_id "branch" branch.id "branch_created" (
        obj (
          field "name" (str name) (
            field "from_commit_id"
              (elim from_commit_id [ none ↦ null | some id ↦ str (rt.uuid_text id) ]) end)))
    pure branch

  pub create_branch : CurrentUser → ℕ → String → Option ℕ → (new_id : ℕ) → Action Branch
  unfolding add_branch branch_head
  create_branch user project_id name from_commit_id new_id = as_editor user project_id (
      branch_head user project_id from_commit_id
      >>= add_branch user project_id name from_commit_id new_id)

-- The arguments of `commit` that a client sends.
pub record CommitInput : Type 0 where
  pub message : String
  pub tree : Option Fields
  pub object_snapshots : Option (List Fields)
  pub tree_root_ref : Option String
  pub parent_commit_ids : Option (List ℕ)
  pub create_scene_snapshot : Bool
  pub scene_snapshot_format : String

-- resolved_parents
pub resolve_parents : Option (List ℕ) → Branch → List ℕ
resolve_parents (some ids) branch = ids
resolve_parents none branch = elim branch.head_commit_id [ none ↦ [] | some id ↦ id ∷ [] ]

-- Every parent is a commit of the project.
check_parents : CurrentUser → ℕ → List ℕ → Action (Unit {0})
check_parents user project_id [] = pure tt
check_parents user project_id (pid ∷ pids) = do
  find_commit user project_id pid parent_commit_not_found
  check_parents user project_id pids

accept_snapshots : Validation → List Fields → List SnapshotInput
accept_snapshots v [] = []
accept_snapshots v (raw ∷ raws) = elim (v.model_validate raw) [
  | none ↦ accept_snapshots v raws
  | some s ↦ s ∷ accept_snapshots v raws
]

-- `d or {}`, and `xs or []`
fields_or_empty : Option Fields → Fields
fields_or_empty none = end
fields_or_empty (some d) = d

list_or_empty : Option (List Fields) → List Fields
list_or_empty none = []
list_or_empty (some xs) = xs

-- parsed_snapshots
parse_snapshots : Validation → Runtime → List Fields → Fields → Result (List SnapshotInput)
unfolding accept_snapshots
parse_snapshots v rt (raw ∷ raws) tree = ok (accept_snapshots v (raw ∷ raws))
parse_snapshots v rt [] end = ok []
parse_snapshots v rt [] tree = snapshots_from_legacy_tree v rt tree

tree_entries : Runtime → List SnapshotInput → Fields → Fields
tree_entries rt [] tree = tree
tree_entries rt (s ∷ ss) tree =
    tree_entries rt ss (set_field s.object_path (obj (legacy_tree_value rt s)) tree)

first_path : List SnapshotInput → Option String
first_path [] = none
first_path (s ∷ ss) = some s.object_path

-- The root of _build_tree_from_snapshots.
root_ref_of : List SnapshotInput → Option String → Option String
unfolding first_path nonempty
root_ref_of ss root_ref = elim (nonempty root_ref) [ none ↦ first_path ss | some r ↦ some r ]

-- The tree of _build_tree_from_snapshots.
build_tree : Runtime → List SnapshotInput → Option String → Fields
unfolding tree_entries root_ref_of
build_tree rt ss root_ref =
    let tree = tree_entries rt ss end in
    elim (nonempty (root_ref_of ss root_ref)) [
      | none ↦ tree
      | some r ↦ set_field "tree_root_ref" (str r) tree
    ]

-- Entries of the client's tree under keys that the built tree lacks.
keep_others : Fields → Fields → Fields
keep_others legacy end = legacy
keep_others legacy (field k v rest) =
    keep_others (if has_field k legacy then legacy else set_field k v legacy) rest

-- v if isinstance(v, list) else []
list_items : Json → Items
list_items (arr xs) = xs
list_items _ = nil

append_items : Items → Items → Items
append_items nil ys = ys
append_items (cons x xs) ys = cons x (append_items xs ys)

-- commit.tree with the warnings of the snapshots: `meta + hnf_warnings`
add_warnings : List String → Fields → Fields
unfolding list_items append_items
add_warnings warnings tree =
    set_field "_hnf_validation_warnings"
      (arr (append_items (list_items (get "_hnf_validation_warnings" tree)) (strs warnings))) tree

unfoldable pub parent_rows : (org_id commit_id : ℕ) → List ℕ → (idx : ℕ) → List CommitParent
parent_rows org_id commit_id [] idx = []
parent_rows org_id commit_id (pid ∷ pids) idx =
    record { org_id = org_id; commit_id = commit_id; parent_commit_id = pid; parent_order = idx }
    ∷ parent_rows org_id commit_id pids (idx + 1)

unfoldable pub set_head : ℕ → ℕ → Db → Db
set_head branch_id commit_id db = record db {
  branches =
      update_where (λ b. b.id == branch_id) (λ b. record b { head_commit_id = some commit_id })
        db.branches;
}

module _ (rt : Runtime) (v : Validation) (user : CurrentUser) (project_id : ℕ) where
  -- The snapshots of a commit, and the warnings about them in its tree.
  warn_commit : (commit_id : ℕ) → List String → Action (Unit {0})
  unfolding add_warnings
  warn_commit commit_id [] = pure tt
  warn_commit commit_id (w ∷ ws) = modify λ db. record db {
    commits =
        update_where (λ c. c.id == commit_id)
          (λ c. record c { tree = add_warnings (w ∷ ws) c.tree }) db.commits;
  }

  pub store_snapshots : (commit_id : ℕ) → List Fields → List SnapshotInput → Action (Unit {0})
  unfolding warn_commit
  store_snapshots commit_id [] [] = pure tt
  store_snapshots commit_id [] (s ∷ ss) = do
    persist_commit_snapshots v user.org_id project_id commit_id (map v.model_dump (s ∷ ss))
    pure tt
  store_snapshots commit_id (raw ∷ raws) parsed = do
    stored ← persist_commit_snapshots v user.org_id project_id commit_id (raw ∷ raws)
    warn_commit commit_id stored.1

  unfoldable pub commit_event : (commit_id branch_id : ℕ) → Option String → Event
  commit_event commit_id branch_id root_ref =
      commit_created rt user.org_id project_id commit_id user.id (
        obj (
          field "branch_id" (str (rt.uuid_text branch_id)) (
            field "commit_id" (str (rt.uuid_text commit_id))
              (field "tree_root_ref" (opt_str root_ref) end))))

  -- The metadata of the audit entry of a commit.
  pub link_metadata : (branch_id : ℕ) → List ℕ → Option String → Json
  link_metadata branch_id parents root_ref = obj (
      field "branch_id" (str (rt.uuid_text branch_id)) (
        field "parent_commit_ids" (arr (strs (map rt.uuid_text parents)))
          (field "tree_root_ref" (opt_str root_ref) end)))

  -- `commit` from the rows of the parents on, up to the event.
  pub link_commit : (commit_id branch_id : ℕ) → List ℕ → Option String → Action (Unit {0})
  unfolding parent_rows set_head commit_event
  link_commit commit_id branch_id parents root_ref = do
    modify (λ db. record db { parents = db.parents ++ parent_rows user.org_id commit_id parents 0 })
    modify (set_head branch_id commit_id)
    write_audit user project_id "commit" commit_id "commit_created"
        (link_metadata branch_id parents root_ref)
    publish rt (commit_event commit_id branch_id root_ref)
    pure tt

  pub commit_row : CommitInput → (branch_id now new_id : ℕ) → List SnapshotInput → Commit
  unfolding build_tree root_ref_of keep_others fields_or_empty
  commit_row input branch_id now new_id parsed = record {
    id = new_id;
    org_id = user.org_id;
    project_id = project_id;
    branch_id = some branch_id;
    message = input.message;
    created_by = user.id;
    tree = keep_others (build_tree rt parsed input.tree_root_ref) (fields_or_empty input.tree);
    tree_root_ref = root_ref_of parsed input.tree_root_ref;
    created_at = now;
  }

  -- `commit` from the new row on, for a branch and parents that are there.
  pub add_commit :
      CommitInput → (branch_id now new_id : ℕ) → List ℕ → List SnapshotInput → Action Commit
  unfolding commit_row store_snapshots link_commit list_or_empty
  add_commit input branch_id now new_id parents parsed = do
    let row = commit_row input branch_id now new_id parsed
    modify (λ db. record db { commits = db.commits ++ row ∷ [] })
    flush
    store_snapshots new_id (list_or_empty input.object_snapshots) parsed
    link_commit new_id branch_id parents row.tree_root_ref
    pure row

  pub scene_snapshot : CommitInput → (commit_id snapshot_id : ℕ) → Action (Unit {0})
  scene_snapshot input commit_id snapshot_id =
      if input.create_scene_snapshot
      then create_snapshot rt user project_id commit_id input.scene_snapshot_format snapshot_id
        >> pure tt
      else pure tt

  -- The commit as the transaction sees its row.
  pub reload_commit : Commit → List Commit → Commit
  reload_commit row rows = elim (first_where (λ c. c.id == row.id) rows) [ none ↦ row | some c ↦ c ]

  -- `snapshot_id` is the identifier of a new scene snapshot.
  unfoldable pub commit : CommitInput → (branch_id now new_id snapshot_id : ℕ) → Action Commit
  unfolding add_commit check_parents resolve_parents parse_snapshots scene_snapshot reload_commit
  commit input branch_id now new_id snapshot_id = as_editor user project_id (do
    branch ← get_branch user project_id branch_id
    let parents = resolve_parents input.parent_commit_ids branch
    check_parents user project_id parents
    parsed ←
        lift
          (parse_snapshots v rt (list_or_empty input.object_snapshots) (fields_or_empty input.tree))
    row ← add_commit input branch.id now new_id parents parsed
    scene_snapshot input new_id snapshot_id
    rows ← gets (λ db. db.commits)
    pure (reload_commit row rows))
