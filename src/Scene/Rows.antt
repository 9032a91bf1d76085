-- ===== src/Scene/Rows.antt =====
-- Component identities and nodes of the scene graph.
use hcp.Prelude.{
  ℕ, zero, suc, ◌+◌, String, Bool, true, false, ◌&&◌, Option, none, some, List, [], ◌∷◌, ◌++◌, map,
  ◌==◌, leb, str_eq, if◌then◌else◌, select, first_where, update_where, sort_by, take,
}
use hcp.Json.{Fields, end}
use hcp.Auth.{CurrentUser}
use hcp.Db.{ComponentIdentity, SceneNode, Db, consistent, rollback}
use hcp.Action.{
  Action, ok, err, pure, ◌>>=◌, ◌>>◌, gets, modify, or_raise, flush, integrity_error,
  component_identity_not_found,
}
use hcp.Access.{require_project, as_editor}

-- Adds a row and flushes. If the flush fails the transaction is rolled back, and a row that the
-- database has at the key is recovered.
unfoldable pub save_row {ℓ} :
    {A : Type ℓ}
    → (Db → List A)
    → (List A → Db → Db)
    → (A → Bool)
    → A
    → (A → Action (A × Bool))
    → Action (A × Bool)
save_row rows set at_key row recover s =
    let added = record s { current = set (rows s.current ++ row ∷ []) s.current } in
    let back = rollback s in
    if consistent added.current
    then (ok (row, true), added)
    else elim (first_where at_key (rows back.current)) [
      | none ↦ (err integrity_error, back)
      | some old ↦ recover old back
    ]

new_identity :
    CurrentUser
    → ℕ
    → String
    → Option String
    → Option String
    → Option Fields
    → (now new_id : ℕ) → ComponentIdentity
new_identity user project_id canonical_key source_tool source_ref metadata now new_id = record {
  id = new_id;
  org_id = user.org_id;
  project_id = project_id;
  canonical_key = canonical_key;
  source_tool = source_tool;
  source_ref = source_ref;
  metadata = metadata;
  created_at = now;
}

add_identity : ComponentIdentity → Action ComponentIdentity
add_identity row = do
  modify (λ db. record db { identities = db.identities ++ row ∷ [] })
  flush
  pure row

create_component_identity :
    CurrentUser
    → ℕ
    → String
    → Option String
    → Option String
    → Option Fields
    → (now new_id : ℕ) → Action ComponentIdentity
unfolding new_identity add_identity
create_component_identity user project_id canonical_key source_tool source_ref metadata now new_id =
    as_editor user project_id (
      add_identity
        (new_identity user project_id canonical_key source_tool source_ref metadata now new_id))

get_component_identity : CurrentUser → (project_id identity_id : ℕ) → Action ComponentIdentity
get_component_identity user project_id identity_id = do
  require_project project_id user.org_id
  found ← gets (λ db.
      first_where
        (λ r. r.id == identity_id && (r.org_id == user.org_id) && (r.project_id == project_id))
        db.identities)
  or_raise found component_identity_not_found

oldest_first : ComponentIdentity → ComponentIdentity → Bool
oldest_first a b = leb a.created_at b.created_at

-- OFFSET
skip {ℓ} : {A : Type ℓ} → ℕ → List A → List A
skip n [] = []
skip zero (x ∷ xs) = x ∷ xs
skip (suc n) (x ∷ xs) = skip n xs

list_component_identities :
    CurrentUser → (project_id limit offset : ℕ) → Action (List ComponentIdentity)
unfolding oldest_first skip
list_component_identities user project_id limit offset = do
  require_project project_id user.org_id
  gets (λ db. take limit (
      skip offset (
        sort_by oldest_first
          (select (λ r. r.org_id == user.org_id && (r.project_id == project_id)) db.identities))))

-- One element of the `nodes` of a request, its key converted by `str`.
pub record NodeInput : Type 0 where
  pub node_key : String
  pub identity_id : Option ℕ
  pub transform : Option Fields
  pub metadata : Option Fields

unfoldable pub node_at : CurrentUser → ℕ → String → SceneNode → Bool
node_at user project_id node_key r =
    r.org_id == user.org_id && (r.project_id == project_id) && str_eq r.node_key node_key

-- n.get("transform") or {}
pub fields_of : Option Fields → Fields
fields_of none = end
fields_of (some d) = d

unfoldable pub write_node : NodeInput → SceneNode → SceneNode
unfolding fields_of
write_node n row = record row {
  identity_id = n.identity_id;
  transform = fields_of n.transform;
  metadata = n.metadata;
}

unfoldable pub new_node : CurrentUser → ℕ → NodeInput → ℕ → SceneNode
unfolding fields_of
new_node user project_id n new_id = record {
  id = new_id;
  org_id = user.org_id;
  project_id = project_id;
  node_key = n.node_key;
  identity_id = n.identity_id;
  transform = fields_of n.transform;
  metadata = n.metadata;
}

abbrev pub set_nodes : List SceneNode → Db → Db
set_nodes rows db = record db { nodes = rows }

unfoldable pub overwrite_node : NodeInput → SceneNode → Action (SceneNode × Bool)
unfolding write_node
overwrite_node n old = do
  modify (λ db. set_nodes (update_where (λ r. r.id == old.id) (write_node n) db.nodes) db)
  pure (write_node n old, false)

-- The body of the loop of `upsert_nodes`.
unfoldable pub upsert_node : CurrentUser → ℕ → NodeInput → (new_id : ℕ) → Action (SceneNode × Bool)
unfolding new_node overwrite_node
upsert_node user project_id n new_id s =
    elim (first_where (node_at user project_id n.node_key) s.current.nodes) [
      | some old ↦ overwrite_node n old s
      | none ↦
          save_row (λ db. db.nodes) set_nodes (node_at user project_id n.node_key)
            (new_node user project_id n new_id) (overwrite_node n) s
    ]

node_loop : CurrentUser → ℕ → (ℕ → ℕ) → List NodeInput → (idx : ℕ) → Action (List SceneNode)
unfolding upsert_node
node_loop user project_id new_id [] idx = pure []
node_loop user project_id new_id (n ∷ ns) idx = do
  saved ← upsert_node user project_id n (new_id idx)
  rest ← node_loop user project_id new_id ns (idx + 1)
  pure (saved.0 ∷ rest)

-- The objects that are answered show their rows as the transaction sees them.
reload_node : List SceneNode → SceneNode → SceneNode
reload_node rows node = elim (first_where (λ r. r.id == node.id) rows) [ none ↦ node | some r ↦ r ]

upsert_nodes : CurrentUser → ℕ → (ℕ → ℕ) → List NodeInput → Action (List SceneNode)
unfolding node_loop reload_node
upsert_nodes user project_id new_id nodes = as_editor user project_id (do
  out ← node_loop user project_id new_id nodes 0
  rows ← gets (λ db. db.nodes)
  pure (map (reload_node rows) out))
