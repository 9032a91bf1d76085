-- ===== src/Scene.antt =====
-- api/app/services/scene_graph.py: component identities, the upserts of nodes and edges, and the
-- snapshot of a commit. Rows that no query orders come in the order of insertion.
pub mod Rows
pub mod Edges
pub mod Snapshots
pub mod Upserts
