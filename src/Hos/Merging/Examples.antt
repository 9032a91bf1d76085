-- ===== src/Hos/Merging/Examples.antt =====
-- A merge whose one conflict is resolved.
use hcp.Prelude.{
  ℕ, ◌≡◌, refl, Bool, true, false, Option, none, some, List, [], ◌∷◌, any, select, first_where,
  str_eq,
}
use hcp.Json.{null, end}
use hcp.Db.{Branch, Commit, Merge, Conflict, Db, open_session}
use hcp.Action.{ok}
use hcp.Hos.Merges.{NewIds, merge_at, conflict_of}
use hcp.Hos.Merging.{unresolved, try_finalize_merge}
use hcp.Hos.Merging.Finalizing.{try_finalize_merge-resolved}
use hcp.Examples.{runtime, validation, alice, start}

abbrev ours : Commit
ours = record {
  id = 6;
  org_id = 1;
  project_id = 1;
  branch_id = some 3;
  message = "ours";
  created_by = 1;
  tree = end;
  tree_root_ref = none;
  created_at = 0;
}

abbrev theirs : Commit
theirs = record ours { id = 5; branch_id = some 4; message = "theirs" }

abbrev main : Branch
main = record {
  id = 3;
  org_id = 1;
  project_id = 1;
  name = "main";
  head_commit_id = some 6;
  created_by = 1;
}

abbrev side : Branch
side = record {
  id = 4;
  org_id = 1;
  project_id = 1;
  name = "side";
  head_commit_id = some 5;
  created_by = 1;
}

abbrev merging : Merge
merging = record {
  id = 40;
  org_id = 1;
  project_id = 1;
  target_branch_id = 3;
  source_branch_id = 4;
  target_head_commit_id = some 6;
  source_head_commit_id = some 5;
  status = "conflicts";
  result_commit_id = none;
  created_by = 1;
}

abbrev resolved_conflict : Conflict
resolved_conflict = record {
  id = 41;
  org_id = 1;
  project_id = 1;
  merge_id = 40;
  path = "a";
  base = null;
  ours = null;
  theirs = null;
  resolution = none;
  status = "resolved";
  resolved_at = none;
  resolved_by = none;
}

abbrev waiting : Db
waiting = record start {
  branches = main ∷ side ∷ [];
  commits = ours ∷ theirs ∷ [];
  merges = merging ∷ [];
  conflicts = resolved_conflict ∷ [];
}

abbrev ids : NewIds
ids = record { merge_id = 60; commit_id = 50; snapshot_id = 51; conflict_id = λ n. n }

abbrev merged : Commit
merged = record ours { id = 50; message = "Merge side into main"; created_at = 7 }

try_finalize_merge-resolved_example :
    (row : Merge) × (first_where (merge_at alice 1 40) waiting.merges ≡ some row)
    × (str_eq row.status "conflicts" ≡ true)
    × (any unresolved (select (conflict_of alice 1 row.id) waiting.conflicts) ≡ false)
unfolding any first_where hcp.Access.as_editor hcp.Access.require_project hcp.Action.flush
    hcp.Auth.role_at_least hcp.Db.branch_clash hcp.Db.consistent hcp.Db.parent_clash
    hcp.Events.publish hcp.Hnf.Rows.load_commit_snapshot_map hcp.Hnf.snapshots_from_legacy_tree
    hcp.Hos.Commits.branch_at hcp.Hos.Commits.commit_at hcp.Hos.Commits.get_branch
    hcp.Hos.Commits.get_commit hcp.Hos.Commits.write_audit hcp.Hos.Merge.finalize_loop
    hcp.Hos.Merges.commit_state_map hcp.Hos.Merges.list_conflicts hcp.Hos.Merges.merge_at
    hcp.Hos.Merges.merge_parents hcp.Hos.Merges.optional_commit hcp.Hos.Merges.snapshot_payloads
    hcp.Hos.Writing.commit hcp.Prelude.Table.unique hcp.Prelude.sort_by hcp.Prelude.update_where
    select try_finalize_merge hcp.Prelude.every hcp.Events.event_row hcp.Events.commit_created
try_finalize_merge-resolved_example =
    try_finalize_merge-resolved runtime validation 9 alice 1 ids 7 merged 40 (open_session waiting)
      refl
