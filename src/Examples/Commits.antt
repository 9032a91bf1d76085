-- ===== src/Examples/Commits.antt =====
-- Commits linked into a small history.
use hcp.Prelude.{ℕ, ◌==◌, map, ◌≡◌, refl, none, some, [], ◌∷◌, select, update_where, any}
use hcp.Prelude.Table.{unique}
use hcp.Json.{end}
use hcp.Db.{Branch, Commit, CommitParent, Db, Session, consistent, rollback, open_session}
use hcp.Action.{Result, ok}
use hcp.Hos.Lca.{parent_ids}
use hcp.Hos.Writing.{link_commit, commit_event, parent_rows, set_head}
use hcp.Hos.Writing.Linking.{link_commit-history}
use hcp.Examples.{runtime, validation, alice, start}

-- A commit of alice, on a branch that is not named.
abbrev made : ℕ → Commit
made id = record {
  id = id;
  org_id = 1;
  project_id = 1;
  branch_id = none;
  message = "made";
  created_by = 1;
  tree = end;
  tree_root_ref = none;
  created_at = 0;
}

abbrev main : Branch
main = record {
  id = 3;
  org_id = 1;
  project_id = 1;
  name = "main";
  head_commit_id = some 6;
  created_by = 1;
}

abbrev side : Branch
side = record {
  id = 4;
  org_id = 1;
  project_id = 1;
  name = "side";
  head_commit_id = some 5;
  created_by = 1;
}

-- Two branches, the commits at their heads, and the commit that is linked.
abbrev branched : Db
branched = record start { branches = main ∷ side ∷ []; commits = made 5 ∷ made 6 ∷ made 8 ∷ [] }

abbrev merged : Result (Unit {0}) × Session
merged = link_commit runtime validation alice 1 8 3 (6 ∷ 5 ∷ []) none (open_session branched)

link_commit-history_example :
    (merged.0 ≡ ok tt)
    × (map (λ r. r.parent_order) (select (λ r. r.commit_id == 8) merged.1.current.parents)
        ≡ 0 ∷ 1 ∷ [])
    × (parent_ids merged.1.current.parents 8 ≡ 6 ∷ 5 ∷ [])
    × (merged.1.current.commits ≡ branched.commits)
    × (merged.1.current.branches ≡ record main { head_commit_id = some 8 } ∷ side ∷ [])
unfolding consistent hcp.Db.unique_rows hcp.Db.event_refs hcp.Db.parent_refs hcp.Db.identity_ref
    hcp.Db.snapshot_refs hcp.Prelude.every any unique select update_where set_head
    hcp.Db.branch_clash parent_rows hcp.Db.parent_clash commit_event hcp.Events.event_row
    hcp.Events.commit_created
link_commit-history_example =
    link_commit-history runtime validation alice 1 8 3 none (open_session branched) (6 ∷ 5 ∷ [])
      refl refl refl refl
