-- ===== src/Hnf/Rows.antt =====
-- The part of HnfService that reads and writes `hos_object_snapshots`.
use hcp.Prelude.{ℕ, ◌+◌, pos, String, none, some, List, [], ◌∷◌, ◌++◌, ◌==◌, ◌&&◌, select}
use hcp.Json.{
  Json, null, num, str, arr, obj, Fields, end, field, get, remove_field, set_default, strs, opt_str,
}
use hcp.Json.Dict.{Dict, lookup, insert}
use hcp.Db.{ObjectSnapshot, Db}
use hcp.Action.{Action, ◌>>◌, pure, modify, flush}
use hcp.Events.{Runtime}
use hcp.Hnf.{SnapshotInput, Validation, validate_object_snapshot, uuid_json}

-- `props`: the properties, with the version number if it is set.
snapshot_props : SnapshotInput → Fields
snapshot_props s =
    let props : Fields = elim s.properties [ none ↦ end | some p ↦ p ] in
    elim s.version_num [ none ↦ props | some n ↦ set_default "version_num" (num n) props ]

-- seq_by_path.get(path, 0) + 1
next_seq : String → Dict ℕ → ℕ
next_seq path seq = elim (lookup path seq) [ none ↦ 1 | some n ↦ n + 1 ]

snapshot_row : (org_id project_id commit_id : ℕ) → SnapshotInput → ℕ → ObjectSnapshot
unfolding snapshot_props
snapshot_row org_id project_id commit_id s seq = record {
  org_id = org_id;
  project_id = project_id;
  commit_id = commit_id;
  object_path = s.object_path;
  object_id = s.object_id;
  version_id = s.version_id;
  content_hash = s.content_hash;
  hnf_type = s.hnf_type;
  domain = s.domain;
  refs = s.refs;
  snapshot_version = seq;
  properties = snapshot_props s;
}

module _ (v : Validation) (org_id project_id commit_id : ℕ) where
  -- The loop: the rows that it adds. A snapshot that pydantic refuses is passed over.
  snapshot_rows : Dict ℕ → List Fields → List ObjectSnapshot
  unfolding next_seq snapshot_row
  snapshot_rows seq [] = []
  snapshot_rows seq (raw ∷ snapshots) = elim (v.model_validate raw) [
    | none ↦ snapshot_rows seq snapshots
    | some s ↦
        let n = next_seq s.object_path seq in
        snapshot_row org_id project_id commit_id s n
        ∷ snapshot_rows (insert s.object_path n seq) snapshots
  ]

  all_warnings : List Fields → List String
  all_warnings [] = []
  all_warnings (raw ∷ snapshots) = validate_object_snapshot v raw ++ all_warnings snapshots

  unfoldable pub persist_commit_snapshots : List Fields → Action (List ObjectSnapshot × List String)
  unfolding snapshot_rows all_warnings
  persist_commit_snapshots snapshots = do
    let rows = snapshot_rows [] snapshots
    modify (λ db. record db { snapshots = db.snapshots ++ rows })
    flush
    pure (rows, all_warnings snapshots)

-- {r.object_path: r for r in rows}
by_object_path : List ObjectSnapshot → Dict ObjectSnapshot → Dict ObjectSnapshot
by_object_path [] d = d
by_object_path (r ∷ rows) d = by_object_path rows (insert r.object_path r d)

unfoldable pub load_commit_snapshot_map : (commit_id org_id : ℕ) → Db → Dict ObjectSnapshot
unfolding by_object_path
load_commit_snapshot_map commit_id org_id db =
    by_object_path (select (λ r. r.commit_id == commit_id && (r.org_id == org_id)) db.snapshots) []

-- props or None
props_or_null : Fields → Json
props_or_null end = null
props_or_null d = obj d

pub snapshot_to_diff_value : Runtime → ObjectSnapshot → Json
unfolding props_or_null
snapshot_to_diff_value rt row = obj (
    field "object_id" (uuid_json rt row.object_id) (
      field "version_id" (uuid_json rt row.version_id) (
        field "version_num" (get "version_num" row.properties) (
          field "content_hash" (opt_str row.content_hash) (
            field "hnf_type" (str row.hnf_type) (
              field "domain" (opt_str row.domain) (
                field "refs" (arr (strs row.refs)) (
                  field "properties" (props_or_null (remove_field "version_num" row.properties))
                    (field "snapshot_version" (num (pos row.snapshot_version)) end)))))))))
