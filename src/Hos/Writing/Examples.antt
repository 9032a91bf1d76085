-- ===== src/Hos/Writing/Examples.antt =====
-- Branches and commits made in a small project.
use hcp.Prelude.{
  ℕ, ◌≡◌, refl, true, false, none, some, [], ◌∷◌, ◌==◌, any, first_where, select, update_where,
}
use hcp.Prelude.Table.{unique}
use hcp.Json.{end}
use hcp.Auth.{role_at_least}
use hcp.Db.{Branch, Commit, Db, Session, consistent, open_session}
use hcp.Action.{ok, flush}
use hcp.Events.{publish}
use hcp.Access.{MayEdit, as_editor}
use hcp.Hos.Commits.{branch_at, commit_at, get_branch, write_audit}
use hcp.Hos.Writing.{CommitInput, new_branch, branch_head, create_branch, commit, resolve_parents}
use hcp.Hos.Writing.Branching.{CanStart, IsAsked, create_branch-get_branch}
use hcp.Hos.Writing.Stored.{InHistory, commit-stored}
use hcp.Hos.Writing.Repeated.{commit-repeated}
use hcp.Examples.{runtime, validation, alice, start}

abbrev root : ℕ → Commit
root id = record {
  id = id;
  org_id = 1;
  project_id = 1;
  branch_id = none;
  message = "root";
  created_by = 1;
  tree = end;
  tree_root_ref = none;
  created_at = 0;
}

abbrev rooted : Db
rooted = record start { commits = root 6 ∷ root 5 ∷ [] }

rooted_alice : MayEdit alice 1 rooted
unfolding role_at_least first_where any
rooted_alice = record {
  editor = refl;
  project = record { id = 1; org_id = 1 };
  found = refl;
  known = refl;
}

rooted_consistent : consistent rooted ≡ true
unfolding consistent hcp.Db.unique_rows hcp.Prelude.every unique
rooted_consistent = refl

can_start : CanStart alice 1 (some 6) rooted
unfolding first_where commit_at
can_start = (root 6, refl)

abbrev main : Branch
main = new_branch alice 1 "main" (some 6) 3

create_branch-get_branch_example :
    (b : Branch) × IsAsked runtime alice 1 "main"
      (some 6)
      3
      rooted
      rooted_alice
      rooted_consistent
      can_start
      b
    × ((create_branch runtime alice 1 "main" (some 6) 3 (open_session rooted)).0 ≡ ok b)
    × ((get_branch alice 1 3
          (create_branch runtime alice 1 "main" (some 6) 3 (open_session rooted)).1).0
        ≡ ok b)
unfolding consistent hcp.Db.unique_rows hcp.Db.event_refs hcp.Db.parent_refs hcp.Db.identity_ref
    hcp.Db.snapshot_refs hcp.Prelude.every branch_head unique first_where
create_branch-get_branch_example =
    create_branch-get_branch runtime alice 1 "main" (some 6) 3 rooted rooted_alice rooted_consistent
      can_start refl refl

abbrev branched : Db
branched = record rooted { branches = main ∷ [] }

branched_alice : MayEdit alice 1 branched
unfolding role_at_least first_where any
branched_alice = record {
  editor = refl;
  project = record { id = 1; org_id = 1 };
  found = refl;
  known = refl;
}

abbrev input : CommitInput
input = record {
  message = "first";
  tree = none;
  object_snapshots = none;
  tree_root_ref = none;
  parent_commit_ids = none;
  create_scene_snapshot = false;
  scene_snapshot_format = "json";
}

abbrev first : Commit
first = record {
  id = 8;
  org_id = 1;
  project_id = 1;
  branch_id = some 3;
  message = "first";
  created_by = 1;
  tree = end;
  tree_root_ref = none;
  created_at = 5;
}

abbrev after : Session
after = (commit runtime validation alice 1 input 3 5 8 9 (open_session branched)).1

commit-stored_example :
    (branch : Branch) × (first_where (branch_at alice 1 3) branched.branches ≡ some branch)
    × InHistory alice 1 input branch.id 5 8 (resolve_parents none branch) branched after.current
unfolding commit consistent hcp.Db.unique_rows hcp.Db.event_refs hcp.Db.parent_refs
    hcp.Db.identity_ref hcp.Db.snapshot_refs hcp.Prelude.every any select as_editor role_at_least
    first_where get_branch branch_at new_branch flush unique write_audit publish update_where
    hcp.Hos.Commits.find_commit commit_at hcp.Events.event_row hcp.Events.commit_created
commit-stored_example =
    commit-stored runtime validation alice 1 input 3 5 8 9 branched branched_alice first after refl
      refl refl refl

abbrev twice : CommitInput
twice = record input { parent_commit_ids = some (6 ∷ 5 ∷ 6 ∷ []) }

commit-repeated_example :
    ¬ commit runtime validation alice 1 twice 3 5 8 9 (open_session branched) ≡ (ok first, after)
unfolding any unique
commit-repeated_example =
    commit-repeated runtime validation alice 1 twice 3 5 8 9 branched branched_alice
      (6 ∷ 5 ∷ 6 ∷ []) first after refl refl refl
