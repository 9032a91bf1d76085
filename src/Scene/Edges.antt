-- ===== src/Scene/Edges.antt =====
-- Edges of the scene graph, and their upserts.
use hcp.Prelude.{
  ℕ, ◌+◌, String, Bool, false, ◌&&◌, Option, none, some, List, [], ◌∷◌, map, ◌==◌, str_eq,
  first_where, update_where,
}
use hcp.Json.{Fields}
use hcp.Auth.{CurrentUser}
use hcp.Db.{SceneEdge, Db}
use hcp.Action.{Action, pure, ◌>>=◌, ◌>>◌, gets, modify}
use hcp.Access.{as_editor}
use hcp.Scene.Rows.{save_row}

-- One element of the `edges` of a request, its texts converted by `str`.
pub record EdgeInput : Type 0 where
  pub edge_key : String
  pub from_node_key : String
  pub to_node_key : String
  pub constraint_type : String
  pub payload : Option Fields

edge_at : CurrentUser → ℕ → String → SceneEdge → Bool
edge_at user project_id edge_key r =
    r.org_id == user.org_id && (r.project_id == project_id) && str_eq r.edge_key edge_key

write_edge : EdgeInput → SceneEdge → SceneEdge
write_edge e row = record row {
  from_node_key = e.from_node_key;
  to_node_key = e.to_node_key;
  constraint_type = e.constraint_type;
  payload = e.payload;
}

new_edge : CurrentUser → ℕ → EdgeInput → ℕ → SceneEdge
new_edge user project_id e new_id = record {
  id = new_id;
  org_id = user.org_id;
  project_id = project_id;
  edge_key = e.edge_key;
  from_node_key = e.from_node_key;
  to_node_key = e.to_node_key;
  constraint_type = e.constraint_type;
  payload = e.payload;
}

abbrev set_edges : List SceneEdge → Db → Db
set_edges rows db = record db { edges = rows }

overwrite_edge : EdgeInput → SceneEdge → Action (SceneEdge × Bool)
unfolding write_edge
overwrite_edge e old = do
  modify (λ db. set_edges (update_where (λ r. r.id == old.id) (write_edge e) db.edges) db)
  pure (write_edge e old, false)

-- The body of the loop of `upsert_edges`.
upsert_edge : CurrentUser → ℕ → EdgeInput → (new_id : ℕ) → Action (SceneEdge × Bool)
unfolding edge_at new_edge overwrite_edge
upsert_edge user project_id e new_id s =
    elim (first_where (edge_at user project_id e.edge_key) s.current.edges) [
      | some old ↦ overwrite_edge e old s
      | none ↦
          save_row (λ db. db.edges) set_edges (edge_at user project_id e.edge_key)
            (new_edge user project_id e new_id) (overwrite_edge e) s
    ]

edge_loop : CurrentUser → ℕ → (ℕ → ℕ) → List EdgeInput → (idx : ℕ) → Action (List SceneEdge)
unfolding upsert_edge
edge_loop user project_id new_id [] idx = pure []
edge_loop user project_id new_id (e ∷ es) idx = do
  saved ← upsert_edge user project_id e (new_id idx)
  rest ← edge_loop user project_id new_id es (idx + 1)
  pure (saved.0 ∷ rest)

reload_edge : List SceneEdge → SceneEdge → SceneEdge
reload_edge rows edge = elim (first_where (λ r. r.id == edge.id) rows) [ none ↦ edge | some r ↦ r ]

upsert_edges : CurrentUser → ℕ → (ℕ → ℕ) → List EdgeInput → Action (List SceneEdge)
unfolding edge_loop reload_edge
upsert_edges user project_id new_id edges = as_editor user project_id (do
  out ← edge_loop user project_id new_id edges 0
  rows ← gets (λ db. db.edges)
  pure (map (reload_edge rows) out))
