-- ===== src/Db.antt =====
-- The tables of api/app/models/db.py that the services use, their unique constraints, the foreign
-- keys of events, of parents of commits, of nodes and of snapshots of objects, and the session of
-- api/app/dependencies.py. A table is the list of its rows in the order of insertion. Primary keys
-- that no service reads (those of events, audit entries, parents and snapshots) are left out, and of
-- the table of users only the identifiers are kept, as what foreign keys refer to (Accounts has its
-- rows). An identifier (`uuid.UUID`) is a number, and an instant is its microseconds.
pub mod Tables
pub mod Consistency
pub use hcp.Db.Tables.*
use hcp.Prelude.{
  ℕ, String, Bool, true, false, ◌&&◌, ◌||◌, Option, none, some, List, [], ◌==◌, str_eq, ℤ,
  if◌then◌else◌, any, every,
}
use hcp.Prelude.Table.{unique}
use hcp.Json.{Json, Fields, Items}
use hcp.Json.Dict.{Dict}

pub record Db : Type 0 where
  pub users : List ℕ
  pub identities : List ComponentIdentity
  pub nodes : List SceneNode
  pub edges : List SceneEdge
  pub scene_snapshots : List SceneSnapshot
  pub objects : List HardwareObject
  pub versions : List Version
  pub audit_log : List AuditLog
  pub projects : List Project
  pub events : List EventRow
  pub presence : List Presence
  pub locks : List SoftLock
  pub branches : List Branch
  pub commits : List Commit
  pub parents : List CommitParent
  pub merges : List Merge
  pub conflicts : List Conflict
  pub snapshots : List ObjectSnapshot
  pub audit : List AuditEntry

abbrev pub blank : Db
blank = record {
  users = [];
  identities = [];
  nodes = [];
  edges = [];
  scene_snapshots = [];
  objects = [];
  versions = [];
  audit_log = [];
  projects = [];
  events = [];
  presence = [];
  locks = [];
  branches = [];
  commits = [];
  parents = [];
  merges = [];
  conflicts = [];
  snapshots = [];
  audit = [];
}

-- The columns org_id, project_id, event_type and dedupe_key.
unfoldable pub same_event : EventRow → EventRow → Bool
same_event a b =
    a.org_id == b.org_id
    && (a.project_id == b.project_id)
    && str_eq a.event_type b.event_type
    && str_eq a.dedupe_key b.dedupe_key

unfoldable pub event_clash : EventRow → EventRow → Bool
unfolding same_event
event_clash a b = same_event a b || a.event_id == b.event_id

unfoldable pub presence_clash : Presence → Presence → Bool
presence_clash a b =
    a.org_id == b.org_id
    && (a.project_id == b.project_id)
    && (a.user_id == b.user_id)
    && str_eq a.session_id b.session_id

unfoldable pub lock_clash : SoftLock → SoftLock → Bool
lock_clash a b =
    a.org_id == b.org_id && (a.project_id == b.project_id) && str_eq a.resource_path b.resource_path

unfoldable pub branch_clash : Branch → Branch → Bool
branch_clash a b = a.org_id == b.org_id && (a.project_id == b.project_id) && str_eq a.name b.name

unfoldable pub parent_clash : CommitParent → CommitParent → Bool
parent_clash a b = a.commit_id == b.commit_id && (a.parent_commit_id == b.parent_commit_id)

pub conflict_clash : Conflict → Conflict → Bool
conflict_clash a b = a.merge_id == b.merge_id && str_eq a.path b.path

pub snapshot_clash : ObjectSnapshot → ObjectSnapshot → Bool
snapshot_clash a b = a.commit_id == b.commit_id && str_eq a.object_path b.object_path

unfoldable pub version_clash : Version → Version → Bool
version_clash a b = a.object_id == b.object_id && (a.version_num == b.version_num)

pub identity_clash : ComponentIdentity → ComponentIdentity → Bool
identity_clash a b =
    a.org_id == b.org_id && (a.project_id == b.project_id) && str_eq a.canonical_key b.canonical_key

unfoldable pub node_clash : SceneNode → SceneNode → Bool
node_clash a b =
    a.org_id == b.org_id && (a.project_id == b.project_id) && str_eq a.node_key b.node_key

pub edge_clash : SceneEdge → SceneEdge → Bool
edge_clash a b =
    a.org_id == b.org_id && (a.project_id == b.project_id) && str_eq a.edge_key b.edge_key

pub scene_clash : SceneSnapshot → SceneSnapshot → Bool
scene_clash a b =
    a.org_id == b.org_id && (a.project_id == b.project_id) && (a.commit_id == b.commit_id)

-- event_log: project_id refers to projects, and actor_id to users.
unfoldable pub event_refs : Db → EventRow → Bool
event_refs db e =
    any (λ p. p.id == e.project_id) db.projects
    && elim e.actor_id [ none ↦ true | some actor ↦ any (λ u. u == actor) db.users ]

-- hos_commit_parents: both columns refer to hos_commits.
unfoldable pub parent_refs : List Commit → CommitParent → Bool
parent_refs commits r =
    any (λ c. c.id == r.commit_id) commits && any (λ c. c.id == r.parent_commit_id) commits

-- scene_graph_nodes: identity_id refers to component_identities.
unfoldable pub identity_ref : List ComponentIdentity → Option ℕ → Bool
identity_ref identities none = true
identity_ref identities (some id) = any (λ i. i.id == id) identities

-- hos_object_snapshots: object_id refers to objects, and version_id to versions.
unfoldable pub snapshot_refs : List HardwareObject → List Version → ObjectSnapshot → Bool
snapshot_refs objects versions r =
    elim r.object_id [ none ↦ true | some id ↦ any (λ o. o.id == id) objects ]
    && elim r.version_id [ none ↦ true | some id ↦ any (λ v. v.id == id) versions ]

-- All unique constraints hold.
unfoldable pub unique_rows : Db → Bool
unique_rows db =
    unique event_clash db.events
    && unique presence_clash db.presence
    && unique lock_clash db.locks
    && unique branch_clash db.branches
    && unique parent_clash db.parents
    && unique conflict_clash db.conflicts
    && unique snapshot_clash db.snapshots
    && unique version_clash db.versions
    && unique identity_clash db.identities
    && unique node_clash db.nodes
    && unique edge_clash db.edges
    && unique scene_clash db.scene_snapshots

-- All unique constraints hold, and those foreign keys.
unfoldable pub consistent : Db → Bool
unfolding event_refs parent_refs identity_ref snapshot_refs unique_rows
consistent db =
    every (event_refs db) db.events
    && every (parent_refs db.commits) db.parents
    && every (λ n. identity_ref db.identities n.identity_id) db.nodes
    && every (snapshot_refs db.objects db.versions) db.snapshots
    && unique_rows db

-- A session with autocommit and autoflush off: what is committed, and what the transaction sees.
pub record Session : Type 0 where
  pub committed : Db
  pub current : Db

-- A session at the start of a request.
abbrev pub open_session : Db → Session
open_session db = record { committed = db; current = db }

unfoldable pub rollback : Session → Session
rollback s = record s { current = s.committed }
