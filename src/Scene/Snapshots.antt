-- ===== src/Scene/Snapshots.antt =====
-- `build_protocol_snapshot`, and `create_snapshot` of SceneGraphService.
use Prim.Native.String.{◌++◌ as append_text}
use hcp.Prelude.{
  ℕ, String, Bool, true, false, ◌&&◌, Option, none, some, List, [], ◌∷◌, ◌==◌, str_eq,
  if◌then◌else◌, any, select, first_where, update_where,
}
use hcp.Json.{
  Json, null, str, arr, obj, Items, nil, cons, Fields, end, field, get_field, merge_fields,
  set_field,
}
use hcp.Auth.{CurrentUser}
use hcp.Db.{Commit, SceneNode, SceneEdge, SceneSnapshot, Db}
use hcp.Action.{Action, ok, pure, ◌>>=◌, ◌>>◌, gets, modify, commit_not_found}
use hcp.Events.{Runtime, Event, publish}
use hcp.Access.{as_editor}
use hcp.Hos.Commits.{find_commit, write_audit}
use hcp.Scene.Rows.{save_row, fields_of}

abbrev valid_snapshot_formats : List String
valid_snapshot_formats = "json" ∷ "glb" ∷ "octree+json" ∷ []

-- snapshot_format if snapshot_format in _VALID_SNAPSHOT_FORMATS else "json"
format_or_json : String → String
format_or_json f = if any (λ v. str_eq v f) valid_snapshot_formats then f else "json"

-- d or None
fields_or_null : Option Fields → Json
fields_or_null none = null
fields_or_null (some end) = null
fields_or_null (some d) = obj d

module _ (rt : Runtime) where
  identity_json : Option ℕ → Json
  identity_json none = null
  identity_json (some i) = str (rt.uuid_text i)

  legacy_node : SceneNode → Json
  unfolding identity_json fields_or_null
  legacy_node n = obj (
      field "node_key" (str n.node_key) (
        field "nodeId" (str n.node_key) (
          field "identity_id" (identity_json n.identity_id) (
            field "transform" (obj n.transform)
              (field "metadata" (fields_or_null n.metadata) end)))))

legacy_edge : SceneEdge → Json
unfolding fields_or_null
legacy_edge e = obj (
    field "edge_key" (str e.edge_key) (
      field "edgeId" (str e.edge_key) (
        field "from_node_key" (str e.from_node_key) (
          field "fromNodeId" (str e.from_node_key) (
            field "to_node_key" (str e.to_node_key) (
              field "toNodeId" (str e.to_node_key) (
                field "constraint_type" (str e.constraint_type) (
                  field "edgeType" (str e.constraint_type)
                    (field "payload" (fields_or_null e.payload) end)))))))))

-- (n.metadata_ or {}).get("node_type", "node")
node_type : Fields → Json
node_type metadata = elim (get_field "node_type" metadata) [ none ↦ str "node" | some t ↦ t ]

rpc_node : SceneNode → Json
unfolding node_type
rpc_node n = obj (
    field "nodeId" (str n.node_key) (
      field "nodeType" (node_type (fields_of n.metadata)) (
        field "attributes"
          (obj (merge_fields (field "transform" (obj n.transform) end) (fields_of n.metadata)))
          end)))

rpc_edge : SceneEdge → Json
rpc_edge e = obj (
    field "edgeId" (str e.edge_key) (
      field "fromNodeId" (str e.from_node_key) (
        field "toNodeId" (str e.to_node_key) (
          field "edgeType" (str e.constraint_type)
            (field "attributes" (obj (fields_of e.payload)) end)))))

-- [f(x) for x in xs]
items {ℓ} : {A : Type ℓ} → (A → Json) → List A → Items
items f [] = nil
items f (x ∷ xs) = cons (f x) (items f xs)

build_protocol_snapshot : Runtime → List SceneNode → List SceneEdge → String → Fields
unfolding format_or_json legacy_node legacy_edge rpc_node rpc_edge items
build_protocol_snapshot rt nodes edges snapshot_format =
    field "format" (str (format_or_json snapshot_format)) (
      field "protocol" (str "hcp.rpc.v0") (
        field "nodes" (arr (items (legacy_node rt) nodes)) (
          field "edges" (arr (items legacy_edge edges)) (
            field "rpc"
              (obj (
                field "nodes" (arr (items rpc_node nodes))
                  (field "edges" (arr (items rpc_edge edges)) end)))
              end))))

scene_at : CurrentUser → (project_id commit_id : ℕ) → SceneSnapshot → Bool
scene_at user project_id commit_id r =
    r.org_id == user.org_id && (r.project_id == project_id) && (r.commit_id == commit_id)

abbrev set_scenes : List SceneSnapshot → Db → Db
set_scenes rows db = record db { scene_snapshots = rows }

-- The rows of the project.
project_nodes : CurrentUser → ℕ → Db → List SceneNode
project_nodes user project_id db =
    select (λ n. n.org_id == user.org_id && (n.project_id == project_id)) db.nodes

project_edges : CurrentUser → ℕ → Db → List SceneEdge
project_edges user project_id db =
    select (λ e. e.org_id == user.org_id && (e.project_id == project_id)) db.edges

module _ (rt : Runtime) (user : CurrentUser) (project_id commit_id : ℕ) (snapshot_format : String)
    (new_id : ℕ) where
  new_scene : Db → SceneSnapshot
  unfolding build_protocol_snapshot format_or_json project_nodes project_edges
  new_scene db = record {
    id = new_id;
    org_id = user.org_id;
    project_id = project_id;
    commit_id = commit_id;
    snapshot =
        build_protocol_snapshot rt (project_nodes user project_id db)
          (project_edges user project_id db) snapshot_format;
    snapshot_format = format_or_json snapshot_format;
    created_by = user.id;
  }

  -- commit.tree, with the snapshot in it
  point_to_scene : SceneSnapshot → Fields → Fields
  point_to_scene row tree =
      set_field "scene_graph_snapshot"
        (obj (
          field "snapshot_id" (str (rt.uuid_text row.id))
            (field "snapshot_format" (str row.snapshot_format) end)))
        tree

  scene_metadata : SceneSnapshot → Json
  scene_metadata row = obj (
      field "commit_id" (str (rt.uuid_text commit_id))
        (field "snapshot_id" (str (rt.uuid_text row.id)) end))

  scene_event : SceneSnapshot → Event
  unfolding scene_metadata
  scene_event row = record {
    event_id = none;
    org_id = user.org_id;
    project_id = project_id;
    event_type = "scene_graph_snapshot_created";
    dedupe_key = append_text "scene_graph_snapshot:" (rt.uuid_text commit_id);
    actor_id = some user.id;
    source = "scene_graph";
    metadata = scene_metadata row;
  }

  announce_scene : SceneSnapshot → Bool → Action (Unit {0})
  unfolding scene_event
  announce_scene row true = do publish rt (scene_event row); pure tt
  announce_scene row false = pure tt

  -- `create_snapshot` from the new row on. The session has loaded the commit with its tree.
  store_scene : Commit → Action (SceneSnapshot × Bool)
  unfolding new_scene scene_at point_to_scene scene_metadata announce_scene
  store_scene commit = do
    row ← gets new_scene
    saved ←
        save_row (λ db. db.scene_snapshots) set_scenes (scene_at user project_id commit_id) row
          (λ old. pure (old, false))
    modify (λ db. record db {
      commits =
          update_where (λ c. c.id == commit.id)
            (λ c. record c { tree = point_to_scene saved.0 c.tree }) db.commits;
    })
    write_audit user project_id "scene_graph_snapshot" saved.0.id "scene_graph_snapshot_created"
        (scene_metadata saved.0)
    announce_scene saved.0 saved.1
    pure saved

  scene_of_commit : Commit → Action (SceneSnapshot × Bool)
  unfolding store_scene
  scene_of_commit commit s =
      elim (first_where (scene_at user project_id commit_id) s.current.scene_snapshots) [
        | some old ↦ (ok (old, false), s)
        | none ↦ store_scene commit s
      ]

  pub create_snapshot : Action (SceneSnapshot × Bool)
  unfolding scene_of_commit
  create_snapshot =
      as_editor user project_id
        (do commit ← find_commit user project_id commit_id commit_not_found; scene_of_commit commit)
