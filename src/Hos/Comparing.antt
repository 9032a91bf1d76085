-- ===== src/Hos/Comparing.antt =====
-- `diff` of HosVersionControlService: two commits, compared by their snapshots or their trees.
use hcp.Prelude.{ℕ, String, List, [], ◌∷◌, any, str_eq, if◌then◌else◌}
use hcp.Json.{Json, Fields, end, field}
use hcp.Json.Dict.{Dict}
use hcp.Auth.{CurrentUser}
use hcp.Db.{ObjectSnapshot}
use hcp.Action.{Action, pure, ◌>>=◌, gets}
use hcp.Events.{Runtime}
use hcp.Hnf.{Validation}
use hcp.Hnf.Rows.{load_commit_snapshot_map}
use hcp.Hos.Commits.{get_commit}
use hcp.Hos.Diff.{DiffEntry, diff_maps}
use hcp.Hos.Merges.{commit_state_map}

abbrev not_objects : List String
not_objects = "scene_graph_snapshot" ∷ "tree_root_ref" ∷ "_hnf_validation_warnings" ∷ []

-- The entries of a tree, without those of other use.
raw_tree : Fields → Dict Json
raw_tree end = []
raw_tree (field k v rest) =
    let entries = raw_tree rest in if any (str_eq k) not_objects then entries else (k, v) ∷ entries

-- `if not a and not b`
or_raw : Dict Json → Dict Json → Fields → Fields → Dict Json × Dict Json
unfolding raw_tree
or_raw [] [] from_tree to_tree = (raw_tree from_tree, raw_tree to_tree)
or_raw a b from_tree to_tree = (a, b)

-- model
model_name : Dict ObjectSnapshot → Dict ObjectSnapshot → String
model_name [] [] = "tree"
model_name _ _ = "object_snapshot"

pub diff :
    Runtime
    → Validation
    → CurrentUser
    → (project_id from_commit_id to_commit_id : ℕ) → Action (List DiffEntry)
unfolding or_raw model_name
diff rt v user project_id from_commit_id to_commit_id = do
  from_c ← get_commit user project_id from_commit_id
  to_c ← get_commit user project_id to_commit_id
  a ← commit_state_map rt v from_c user.org_id
  b ← commit_state_map rt v to_c user.org_id
  model ← gets (λ db.
      model_name (load_commit_snapshot_map from_c.id user.org_id db)
        (load_commit_snapshot_map to_c.id user.org_id db))
  let maps = or_raw a b from_c.tree to_c.tree
  pure (diff_maps model maps.0 maps.1)
