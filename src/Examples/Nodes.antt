-- ===== src/Examples/Nodes.antt =====
-- A node of the scene graph, upserted into a project that has none.
use hcp.Prelude.{◌≡◌, refl, Bool, true, none, some, [], ◌∷◌, any, first_where}
use hcp.Prelude.Table.{unique}
use hcp.Db.{SceneNode, Db, identity_ref, consistent, open_session}
use hcp.Action.{ok}
use hcp.Scene.Rows.{NodeInput, node_at, upsert_node}
use hcp.Scene.Upserts.{Holds, upsert_node-first_where}
use hcp.Examples.{alice, start}

abbrev resistor : NodeInput
resistor = record { node_key = "R1"; identity_id = some 4; transform = none; metadata = none }

abbrev identified : Db
identified = record start {
  identities =
      record {
        id = 4;
        org_id = 1;
        project_id = 1;
        canonical_key = "R1";
        source_tool = none;
        source_ref = none;
        metadata = none;
        created_at = 0;
      }
      ∷ [];
}

identified_consistent : consistent identified ≡ true
unfolding consistent hcp.Db.unique_rows hcp.Db.event_refs hcp.Db.parent_refs hcp.Db.identity_ref
    hcp.Db.snapshot_refs hcp.Prelude.every unique
identified_consistent = refl

-- The identity that the resistor names is in the database.
identity_known : identity_ref identified.identities (some 4) ≡ true
unfolding identity_ref any
identity_known = refl

upsert_node-first_where_example :
    (row : SceneNode) × (created : Bool) × ((upsert_node alice 1 resistor 30
        (open_session identified)).0
      ≡ ok (row, created))
    × (first_where
          (node_at alice 1 "R1")
          (upsert_node alice 1 resistor 30 (open_session identified)).1.current.nodes
        ≡ some row)
    × Holds alice 1 resistor 30 (open_session identified) identified_consistent identity_known row
upsert_node-first_where_example =
    upsert_node-first_where alice 1 resistor 30 (open_session identified) identified_consistent
      identity_known
