-- ===== src/Hos/Merges.antt =====
-- What the merging methods of HosVersionControlService read and write: state maps, payloads and rows,
-- and `list_conflicts`.
pub mod SameHead
pub mod Listing
use Prim.Native.String.{compare, ◌++◌ as append_text}
use Prim.Native.Nat.{Ordering}
use hcp.Prelude.{
  ℕ, zero, suc, ◌+◌, String, Bool, true, false, not, ◌&&◌, ◌||◌, Option, none, some, List, [], ◌∷◌,
  ◌++◌, length, ◌==◌, str_eq, if◌then◌else◌, any, select, first_where, update_where, sort_by, pos,
}
use hcp.Json.{Json, null, str, num, arr, obj, nil, Fields, end, field, get_field, get, or_else}
use hcp.Json.Dict.{Dict, lookup, insert}
use hcp.Auth.{CurrentUser}
use hcp.Db.{Branch, Commit, Merge, Conflict, ObjectSnapshot, Db, Session}
use hcp.Action.{
  Action, Result, ok, err, Error, pure, lift, raise, ◌>>=◌, ◌>>◌, gets, modify, or_raise, flush,
  out_of_fuel, attribute_error, key_error, invalid_resolution, merge_not_found, conflict_not_found,
}
use hcp.Events.{Runtime, publish, merge_created, conflict_detected}
use hcp.Access.{require_project, as_editor}
use hcp.Hnf.{SnapshotInput, Validation, legacy_tree_value, snapshots_from_legacy_tree}
use hcp.Hnf.Rows.{load_commit_snapshot_map, snapshot_to_diff_value}
use hcp.Hos.Lca.{parent_ids, find_lca}
use hcp.Hos.Merge.{
  Clash, Merging, merge_trees, Finalized, finalized, invalid_value, missing_conflict, finalize_loop,
}
use hcp.Hos.Commits.{write_audit, get_branch, get_commit}
use hcp.Hos.Writing.{CommitInput, commit}

-- Identifiers of the rows that a merge adds.
pub record NewIds : Type 0 where
  pub merge_id : ℕ
  pub commit_id : ℕ
  pub snapshot_id : ℕ
  pub conflict_id : ℕ → ℕ

diff_values : Runtime → Dict ObjectSnapshot → Dict Json
diff_values rt [] = []
diff_values rt ((path, row) ∷ rows) = (path, snapshot_to_diff_value rt row) ∷ diff_values rt rows

-- {s.object_path: legacy_tree_value(s) for s in snapshots}
legacy_values : Runtime → List SnapshotInput → Dict Json → Dict Json
legacy_values rt [] d = d
legacy_values rt (s ∷ ss) d =
    legacy_values rt ss (insert s.object_path (obj (legacy_tree_value rt s)) d)

-- `_commit_state_map`, for the snapshots of the commit and its tree.
state_map_of : Runtime → Validation → Dict ObjectSnapshot → Fields → Result (Dict Json)
unfolding diff_values legacy_values
state_map_of rt v [] tree = elim (snapshots_from_legacy_tree v rt tree) [
  | ok ss ↦ ok (legacy_values rt ss [])
  | err e ↦ err e
]
state_map_of rt v rows tree = ok (diff_values rt rows)

unfoldable pub commit_state_map : Runtime → Validation → Commit → (org_id : ℕ) → Action (Dict Json)
unfolding state_map_of
commit_state_map rt v commit org_id s =
    (state_map_of rt v (load_commit_snapshot_map commit.id org_id s.current) commit.tree, s)

-- d.get(k, default)
get_or_default : String → Json → Fields → Json
get_or_default k d fields = elim (get_field k fields) [ none ↦ d | some x ↦ x ]

-- One element of the payloads: `val.get` of what is no dict is an AttributeError.
snapshot_payload : String → Json → Result Fields
unfolding get_or_default
snapshot_payload path (obj val) = ok (
    field "object_path" (str path) (
      field "hnf_type" (get_or_default "hnf_type" (str "hardware.object") val) (
        field "object_id" (get "object_id" val) (
          field "version_id" (get "version_id" val) (
            field "version_num" (get "version_num" val) (
              field "content_hash" (get "content_hash" val) (
                field "domain" (get "domain" val) (
                  field "refs" (or_else (get "refs" val) (arr nil))
                    (field "properties" (get "properties" val) end)))))))))
snapshot_payload path _ = err attribute_error

cons_payload : Result Fields → Result (List Fields) → Result (List Fields)
cons_payload (ok p) (ok ps) = ok (p ∷ ps)
cons_payload (ok p) (err e) = err e
cons_payload (err e) ps = err e

-- _snapshot_payloads_from_tree
unfoldable pub snapshot_payloads : Dict Json → Result (List Fields)
unfolding snapshot_payload cons_payload
snapshot_payloads [] = ok []
snapshot_payloads ((path, val) ∷ tree) =
    cons_payload (snapshot_payload path val) (snapshot_payloads tree)

unfoldable pub merge_at : CurrentUser → ℕ → ℕ → Merge → Bool
merge_at user project_id merge_id m =
    m.id == merge_id && (m.org_id == user.org_id) && (m.project_id == project_id)

pub conflict_at : CurrentUser → ℕ → ℕ → Conflict → Bool
conflict_at user project_id conflict_id c =
    c.id == conflict_id && (c.org_id == user.org_id) && (c.project_id == project_id)

pub conflict_of : CurrentUser → ℕ → ℕ → Conflict → Bool
conflict_of user project_id merge_id c =
    c.org_id == user.org_id && (c.project_id == project_id) && (c.merge_id == merge_id)

conflict_path_le : Conflict → Conflict → Bool
conflict_path_le a b = elim (compare a.path b.path) [ Ordering.gt ↦ false | _ ↦ true ]

unfoldable pub list_conflicts : CurrentUser → ℕ → ℕ → Action (List Conflict)
unfolding merge_at conflict_of conflict_path_le
list_conflicts user project_id merge_id = do
  require_project project_id user.org_id
  found ← gets (λ db. first_where (merge_at user project_id merge_id) db.merges)
  or_raise found merge_not_found
  gets (λ db. sort_by conflict_path_le (select (conflict_of user project_id merge_id) db.conflicts))

-- `get_commit` of an identifier that may be missing
unfoldable pub optional_commit : CurrentUser → ℕ → Option ℕ → Action (Option Commit)
optional_commit user project_id none = pure none
optional_commit user project_id (some id) = do c ← get_commit user project_id id; pure (some c)

unfoldable pub id_of : Option Commit → Option ℕ
id_of none = none
id_of (some c) = some c.id

ids_of : Option Commit → List ℕ
ids_of none = []
ids_of (some c) = c.id ∷ []

-- parent_ids of a merge commit
unfoldable pub merge_parents : Option Commit → Option Commit → List ℕ
unfolding ids_of
merge_parents ours theirs = ids_of ours ++ ids_of theirs

pub conflict_rows :
    (org_id project_id merge_id : ℕ) → (ℕ → ℕ) → List Clash → (idx : ℕ) → List Conflict
conflict_rows org_id project_id merge_id new_id [] idx = []
conflict_rows org_id project_id merge_id new_id (c ∷ cs) idx =
    record {
      id = new_id idx;
      org_id = org_id;
      project_id = project_id;
      merge_id = merge_id;
      path = c.path;
      base = c.base;
      ours = c.ours;
      theirs = c.theirs;
      resolution = none;
      status = "unresolved";
      resolved_at = none;
      resolved_by = none;
    }
    ∷ conflict_rows org_id project_id merge_id new_id cs (idx + 1)

unfoldable pub merge_message : Branch → Branch → String
merge_message source target =
    append_text "Merge " (append_text source.name (append_text " into " target.name))

-- "conflicts" if conflicts else "merged"
pub merge_status : List Clash → String
merge_status [] = "merged"
merge_status _ = "conflicts"

pub set_merge : ℕ → String → ℕ → Db → Db
set_merge merge_id status commit_id db = record db {
  merges =
      update_where (λ m. m.id == merge_id)
        (λ m. record m { status = status; result_commit_id = some commit_id }) db.merges;
}
