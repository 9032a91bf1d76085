-- ===== src/Scene/Upserts.antt =====
-- Nodes that are upserted, and the query that looks for them.
use hcp.Prelude.{
  ℕ, ◌≡◌, refl, ◌∙◌, Bool, true, false, none, some, [], ◌∷◌, ◌++◌, arith, ◌==◌, ==_refl, eq_refl,
  first_where, update_where, Option-cases, inl, inr,
}
use hcp.Prelude.Table.{
  unique-snoc, every-snoc, any_of_first_where-none, first_where-snoc, first_where_sound,
  first_where-update_where,
}
use hcp.Auth.{CurrentUser}
use hcp.Db.{SceneNode, Session, node_clash, identity_ref, event_refs, unique_rows, consistent}
use hcp.Action.{ok}
use hcp.Scene.Rows.{
  NodeInput, fields_of, node_at, write_node, new_node, set_nodes, overwrite_node, save_row,
  upsert_node,
}

module _ (user : CurrentUser) (project : ℕ) (n : NodeInput) (new_id : ℕ) (s : Session)
    (c : consistent s.current ≡ true)
    (known : identity_ref s.current.identities n.identity_id ≡ true) where
  abbrev fresh : SceneNode
  fresh = new_node user project n new_id

  -- The row has the key and the content that were given.
  pub record Holds (row : SceneNode) : Type 0 where
    pub at_key : node_at user project n.node_key row ≡ true
    pub identity_id : row.identity_id ≡ n.identity_id
    pub transform : row.transform ≡ fields_of n.transform
    pub metadata : row.metadata ≡ n.metadata

  added-consistent :
      first_where (node_at user project n.node_key) s.current.nodes ≡ none
      → consistent (set_nodes (s.current.nodes ++ fresh ∷ []) s.current) ≡ true
  unfolding consistent unique_rows event_refs node_at node_clash new_node
  added-consistent gone = ground (
    arith,
    c,
    known,
    every-snoc (λ r. identity_ref s.current.identities r.identity_id) s.current.nodes fresh,
    any_of_first_where-none (node_at user project n.node_key) s.current.nodes gone,
    unique-snoc node_clash s.current.nodes fresh,
  )

  upsert_new :
      first_where (node_at user project n.node_key) s.current.nodes ≡ none
      → upsert_node user project n new_id s ≡ (
        ok (fresh, true),
        record s { current = set_nodes (s.current.nodes ++ fresh ∷ []) s.current },
      )
  unfolding upsert_node save_row
  upsert_new gone = rw (gone, upsert_node) (rw (added-consistent gone) refl)

  abbrev rewritten : SceneNode → Session
  rewritten old = record s {
    current =
        set_nodes (update_where (λ r. r.id == old.id) (write_node n) s.current.nodes) s.current;
  }

  upsert_old :
      (old : SceneNode)
      → first_where (node_at user project n.node_key) s.current.nodes ≡ some old
      → upsert_node user project n new_id s ≡ (ok (write_node n old, false), rewritten old)
  unfolding upsert_node overwrite_node
  upsert_old old found = rw (found, upsert_node) refl

  find_rewritten :
      (old : SceneNode)
      → first_where (node_at user project n.node_key) s.current.nodes ≡ some old
      → first_where (node_at user project n.node_key) (rewritten old).current.nodes
        ≡ some (write_node n old)
  unfolding node_at write_node
  find_rewritten old found =
      first_where-update_where (node_at user project n.node_key) (λ r. r.id == old.id)
        (write_node n) s.current.nodes (λ y. refl) found
      ∙ rw (==_refl old.id) refl

  -- In a transaction that breaks no constraint, upserting a node that names no identity, or an
  -- identity that is in the database, answers a row with the key and the content that were given, and
  -- the lookup by the key then finds that row.
  pub upsert_node-first_where :
      (row : SceneNode) × (created : Bool) × ((upsert_node user project n new_id s).0
        ≡ ok (row, created))
      × (first_where
            (node_at user project n.node_key)
            (upsert_node user project n new_id s).1.current.nodes
          ≡ some row)
      × Holds row
  unfolding new_node write_node node_at
  upsert_node-first_where =
      elim (Option-cases (first_where (node_at user project n.node_key) s.current.nodes)) [
        | inl gone ↦ (
          fresh,
          true,
          rw (upsert_new gone) refl,
          rw (upsert_new gone) (
              first_where-snoc (node_at user project n.node_key) s.current.nodes fresh gone
                (ground (arith, eq_refl n.node_key))),
          record {
            at_key = ground (arith, eq_refl n.node_key);
            identity_id = refl;
            transform = refl;
            metadata = refl;
          },
        )
        | inr (old, found) ↦ (
          write_node n old,
          false,
          rw (upsert_old old found) refl,
          rw (upsert_old old found) (find_rewritten old found),
          record {
            at_key = first_where_sound (node_at user project n.node_key) s.current.nodes found;
            identity_id = refl;
            transform = refl;
            metadata = refl;
          },
        )
      ]
