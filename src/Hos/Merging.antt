-- ===== src/Hos/Merging.antt =====
-- `merge`, `_try_finalize_merge` and `resolve_conflict` of HosVersionControlService. `fuel` bounds
-- the walks of `find_lca` (Hos/Lca/Terminates.antt says which is enough).
pub mod Finalizing
pub mod Examples
use hcp.Prelude.{
  ℕ, String, Bool, false, not, Option, none, some, List, [], ◌∷◌, ◌++◌, length, ◌==◌, str_eq,
  if◌then◌else◌, any, first_where, update_where, pos,
}
use hcp.Json.{Json, null, str, num, obj, Fields, end, field}
use hcp.Json.Dict.{Dict, lookup, insert}
use hcp.Auth.{CurrentUser}
use hcp.Db.{Branch, Commit, Merge, Conflict}
use hcp.Action.{
  Action, pure, lift, raise, ◌>>=◌, ◌>>◌, gets, modify, or_raise, flush, out_of_fuel, key_error,
  invalid_resolution, conflict_not_found,
}
use hcp.Events.{Runtime, publish, merge_created, conflict_detected}
use hcp.Access.{require_project, as_editor}
use hcp.Hnf.{Validation}
use hcp.Hos.Lca.{parent_ids, find_lca}
use hcp.Hos.Merge.{
  Clash, Merging, merge_trees, Finalized, finalized, invalid_value, missing_conflict, finalize_loop,
}
use hcp.Hos.Commits.{write_audit, get_branch}
use hcp.Hos.Writing.{CommitInput, commit}
use hcp.Hos.Merges.{
  NewIds, commit_state_map, snapshot_payloads, merge_at, conflict_at, list_conflicts,
  optional_commit, id_of, merge_parents, conflict_rows, merge_message, merge_status, set_merge,
}

-- The input of the commit of a merge.
merge_input : Branch → Branch → List Fields → List ℕ → CommitInput
unfolding merge_message
merge_input source target payloads parents = record {
  message = merge_message source target;
  tree = none;
  object_snapshots = some payloads;
  tree_root_ref = none;
  parent_commit_ids = some parents;
  create_scene_snapshot = false;
  scene_snapshot_format = "json";
}

merge_row : CurrentUser → ℕ → ℕ → Branch → Branch → Option Commit → Option Commit → String → Merge
unfolding id_of
merge_row user project_id merge_id target source ours theirs status = record {
  id = merge_id;
  org_id = user.org_id;
  project_id = project_id;
  target_branch_id = target.id;
  source_branch_id = source.id;
  target_head_commit_id = id_of ours;
  source_head_commit_id = id_of theirs;
  status = status;
  result_commit_id = none;
  created_by = user.id;
}

-- {c.path: c for c in conflicts}
by_path : List Conflict → Dict Conflict → Dict Conflict
by_path [] d = d
by_path (c ∷ cs) d = by_path cs (insert c.path c d)

raise_finalized : Finalized → Action (Dict Json)
raise_finalized (finalized t) = pure t
raise_finalized invalid_value = raise invalid_resolution
raise_finalized missing_conflict = raise key_error

-- c.status != "resolved"
pub unresolved : Conflict → Bool
unresolved c = not (str_eq c.status "resolved")

module _ (rt : Runtime) (v : Validation) (fuel : ℕ) (user : CurrentUser) (project_id : ℕ) where
  -- `_commit_state_map(c, org) if c else {}`
  optional_tree : Option Commit → Action (Dict Json)
  optional_tree none = pure []
  optional_tree (some c) = commit_state_map rt v c user.org_id

  -- base_commit_id
  merge_base : Option Commit → Option Commit → Action (Option ℕ)
  merge_base (some ours) (some theirs) = do
    require_project project_id user.org_id
    parents ← gets (λ db. db.parents)
    elim (find_lca (parent_ids parents) fuel ours.id theirs.id) [
      | none ↦ raise out_of_fuel
      | some base ↦ pure base
    ]
  merge_base _ _ = pure none

  merge_commit : NewIds → (now : ℕ) → Branch → Branch → Dict Json → List ℕ → Action Commit
  unfolding merge_input
  merge_commit ids now target source tree parents = do
    payloads ← lift (snapshot_payloads tree)
    commit rt v user project_id (merge_input source target payloads parents) target.id now
        ids.commit_id ids.snapshot_id

  -- The commit of a merge with no conflict.
  merge_result :
      NewIds
      → (now : ℕ) → Branch
      → Branch
      → Option Commit
      → Option Commit
      → Merging
      → List Clash
      → Action (Option Commit)
  unfolding merge_commit
  merge_result ids now target source ours theirs merging [] = do
    c ← merge_commit ids now target source merging.merged_tree (merge_parents ours theirs)
    modify (set_merge ids.merge_id "merged" c.id)
    pure (some c)
  merge_result ids now target source ours theirs merging _ = pure none

  -- The audit entry and the events of a merge.
  merge_events : NewIds → Branch → Branch → List Clash → Option ℕ → Action (Unit {0})
  merge_events ids target source conflicts base = do
    let status = merge_status conflicts
    let count = num (pos (length conflicts))
    write_audit user project_id "merge" ids.merge_id "merge_created" (
        obj (
          field "target_branch_id" (str (rt.uuid_text target.id)) (
            field "source_branch_id" (str (rt.uuid_text source.id)) (
              field "status" (str status) (
                field "conflict_count" count (
                  field "base_commit_id" (elim base [ none ↦ null | some i ↦ str (rt.uuid_text i) ])
                    end))))))
    publish rt (
        merge_created rt user.org_id project_id ids.merge_id user.id (
          obj (
            field "merge_id" (str (rt.uuid_text ids.merge_id)) (
              field "target_branch_id" (str (rt.uuid_text target.id)) (
                field "source_branch_id" (str (rt.uuid_text source.id))
                  (field "status" (str status) (field "conflict_count" count end)))))))
    elim conflicts [
      | [] ↦ pure tt
      | _ ∷ _ ↦ do
        publish rt (
            conflict_detected rt user.org_id project_id ids.merge_id user.id (
              obj (
                field "merge_id" (str (rt.uuid_text ids.merge_id))
                  (field "conflict_count" count end))))
        pure tt
    ]

  -- `merge` from the new row on.
  merge_store :
      NewIds
      → (now : ℕ) → Branch
      → Branch
      → Option Commit
      → Option Commit
      → Option ℕ
      → Merging
      → Action (ℕ × Option Commit × ℕ)
  unfolding merge_row merge_result merge_events
  merge_store ids now target source ours theirs base merging = do
    let conflicts = merging.conflicts
    modify (λ db. record db {
      merges =
          db.merges
          ++ merge_row user project_id ids.merge_id target source ours theirs
              (merge_status conflicts)
            ∷ [];
    })
    flush
    modify (λ db. record db {
      conflicts =
          db.conflicts
          ++ conflict_rows user.org_id project_id ids.merge_id ids.conflict_id conflicts 0;
    })
    result ← merge_result ids now target source ours theirs merging conflicts
    merge_events ids target source conflicts base
    pure (ids.merge_id, result, length conflicts)

  -- The answer names the row of the merge by its identifier.
  pub merge :
      NewIds → (now : ℕ) → (target_branch_id source_branch_id : ℕ) → Action (ℕ × Option Commit × ℕ)
  unfolding optional_tree merge_base merge_store
  merge ids now target_branch_id source_branch_id = as_editor user project_id (do
    target ← get_branch user project_id target_branch_id
    source ← get_branch user project_id source_branch_id
    ours ← optional_commit user project_id target.head_commit_id
    theirs ← optional_commit user project_id source.head_commit_id
    base ← merge_base ours theirs
    base_commit ← optional_commit user project_id base
    ours_tree ← optional_tree ours
    theirs_tree ← optional_tree theirs
    base_tree ← optional_tree base_commit
    merge_store ids now target source ours theirs base
        (merge_trees ours_tree theirs_tree base_tree))

  -- `_try_finalize_merge` once every conflict is resolved.
  finalize_row : NewIds → (now : ℕ) → Merge → List Conflict → Action (Option Commit)
  unfolding optional_tree by_path raise_finalized merge_commit
  finalize_row ids now row conflicts = do
    ours ← optional_commit user project_id row.target_head_commit_id
    theirs ← optional_commit user project_id row.source_head_commit_id
    ours_tree ← optional_tree ours
    theirs_tree ← optional_tree theirs
    tree ←
        raise_finalized (
          finalize_loop (λ path. lookup path (by_path conflicts [])) ours_tree theirs_tree
            ours_tree)
    target ← get_branch user project_id row.target_branch_id
    source ← get_branch user project_id row.source_branch_id
    c ← merge_commit ids now target source tree (merge_parents ours theirs)
    modify (set_merge row.id "merged" c.id)
    write_audit user project_id "merge" row.id "merge_completed" (
        obj (
          field "result_commit_id" (str (rt.uuid_text c.id)) (
            field "target_branch_id" (str (rt.uuid_text target.id))
              (field "source_branch_id" (str (rt.uuid_text source.id)) end))))
    pure (some c)

  finalize_conflicts : NewIds → (now : ℕ) → Merge → List Conflict → Action (Option Commit)
  unfolding finalize_row unresolved
  finalize_conflicts ids now row [] = pure none
  finalize_conflicts ids now row (c ∷ cs) =
      if any unresolved (c ∷ cs) then pure none else finalize_row ids now row (c ∷ cs)

  finalize_found : NewIds → (now : ℕ) → Option Merge → Action (Option Commit)
  unfolding finalize_conflicts
  finalize_found ids now none = pure none
  finalize_found ids now (some row) =
      if str_eq row.status "conflicts"
      then list_conflicts user project_id row.id >>= finalize_conflicts ids now row
      else pure none

  pub try_finalize_merge : NewIds → (now merge_id : ℕ) → Action (Option Commit)
  unfolding finalize_found
  try_finalize_merge ids now merge_id s =
      finalize_found ids now (first_where (merge_at user project_id merge_id) s.current.merges) s

  resolve : Fields → ℕ → Conflict → Conflict
  resolve resolution now c = record c {
    resolution = some resolution;
    status = "resolved";
    resolved_at = some now;
    resolved_by = some user.id;
  }

  pub resolve_conflict : NewIds → (now conflict_id : ℕ) → Fields → Action Conflict
  unfolding try_finalize_merge resolve
  resolve_conflict ids now conflict_id resolution = as_editor user project_id (do
    found ← gets (λ db. first_where (conflict_at user project_id conflict_id) db.conflicts)
    conflict ← or_raise found conflict_not_found
    modify (λ db. record db {
      conflicts = update_where (λ c. c.id == conflict.id) (resolve resolution now) db.conflicts;
    })
    write_audit user project_id "conflict" conflict.id "conflict_resolved"
        (obj (field "path" (str conflict.path) end))
    try_finalize_merge ids now conflict.merge_id
    pure (resolve resolution now conflict))
