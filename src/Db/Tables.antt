-- ===== src/Db/Tables.antt =====
-- The rows of the tables of api/app/models/db.py that the services use.
use hcp.Prelude.{ℕ, String, Bool, Option, List}
use hcp.Json.{Json, Fields}

pub record Project : Type 0 where
  pub id : ℕ
  pub org_id : ℕ

pub record EventRow : Type 0 where
  pub event_id : ℕ
  pub org_id : ℕ
  pub project_id : ℕ
  pub event_type : String
  pub dedupe_key : String
  pub actor_id : Option ℕ
  pub source : String
  pub metadata : Json

pub record Presence : Type 0 where
  pub id : ℕ
  pub org_id : ℕ
  pub project_id : ℕ
  pub user_id : ℕ
  pub session_id : String
  pub resource_path : Option String
  pub domain : Option String
  pub client_meta : Option Json
  pub last_heartbeat_at : ℕ

pub record SoftLock : Type 0 where
  pub id : ℕ
  pub org_id : ℕ
  pub project_id : ℕ
  pub resource_path : String
  pub holder_user_id : ℕ
  pub holder_session_id : Option String
  pub advisory : Bool
  pub expires_at : ℕ
  pub updated_at : ℕ

pub record Branch : Type 0 where
  pub id : ℕ
  pub org_id : ℕ
  pub project_id : ℕ
  pub name : String
  pub head_commit_id : Option ℕ
  pub created_by : ℕ

pub record Commit : Type 0 where
  pub id : ℕ
  pub org_id : ℕ
  pub project_id : ℕ
  pub branch_id : Option ℕ
  pub message : String
  pub created_by : ℕ
  pub tree : Fields
  pub tree_root_ref : Option String
  pub created_at : ℕ

pub record CommitParent : Type 0 where
  pub org_id : ℕ
  pub commit_id : ℕ
  pub parent_commit_id : ℕ
  pub parent_order : ℕ

pub record Merge : Type 0 where
  pub id : ℕ
  pub org_id : ℕ
  pub project_id : ℕ
  pub target_branch_id : ℕ
  pub source_branch_id : ℕ
  pub target_head_commit_id : Option ℕ
  pub source_head_commit_id : Option ℕ
  pub status : String
  pub result_commit_id : Option ℕ
  pub created_by : ℕ

pub record Conflict : Type 0 where
  pub id : ℕ
  pub org_id : ℕ
  pub project_id : ℕ
  pub merge_id : ℕ
  pub path : String
  pub base : Json
  pub ours : Json
  pub theirs : Json
  pub resolution : Option Fields
  pub status : String
  pub resolved_at : Option ℕ
  pub resolved_by : Option ℕ

pub record ObjectSnapshot : Type 0 where
  pub org_id : ℕ
  pub project_id : ℕ
  pub commit_id : ℕ
  pub object_path : String
  pub object_id : Option ℕ
  pub version_id : Option ℕ
  pub content_hash : Option String
  pub hnf_type : String
  pub domain : Option String
  pub refs : List String
  pub snapshot_version : ℕ
  pub properties : Fields

pub record AuditEntry : Type 0 where
  pub org_id : ℕ
  pub project_id : ℕ
  pub entity_type : String
  pub entity_id : ℕ
  pub event_type : String
  pub actor_id : ℕ
  pub actor_email : String
  pub metadata : Json

pub record HardwareObject : Type 0 where
  pub id : ℕ
  pub org_id : ℕ
  pub project_id : ℕ
  pub name : String
  pub object_type : String
  pub domain : Option String
  pub source_tool : Option String
  pub representation : Option String
  pub created_by : ℕ
  pub deleted_at : Option ℕ

pub record Version : Type 0 where
  pub id : ℕ
  pub org_id : ℕ
  pub object_id : ℕ
  pub version_num : ℕ
  pub filename : String
  pub content_hash : String
  pub file_size_bytes : ℕ
  pub storage_key : String
  pub parsed_key : Option String
  pub parse_status : String
  pub lifecycle_state : String
  pub uploaded_by : ℕ
  pub description : Option String
  pub source_tool : Option String
  pub source_tool_version : Option String
  pub domain : Option String
  pub representation : Option String
  pub derived_from_version_id : Option ℕ
  pub created_at : ℕ

pub record AuditLog : Type 0 where
  pub org_id : ℕ
  pub object_id : ℕ
  pub version_num : ℕ
  pub event_type : String
  pub from_state : Option String
  pub to_state : Option String
  pub actor_id : ℕ
  pub actor_email : String
  pub comment : Option String
  pub metadata : Option Json

pub record ComponentIdentity : Type 0 where
  pub id : ℕ
  pub org_id : ℕ
  pub project_id : ℕ
  pub canonical_key : String
  pub source_tool : Option String
  pub source_ref : Option String
  pub metadata : Option Fields
  pub created_at : ℕ

pub record SceneNode : Type 0 where
  pub id : ℕ
  pub org_id : ℕ
  pub project_id : ℕ
  pub node_key : String
  pub identity_id : Option ℕ
  pub transform : Fields
  pub metadata : Option Fields

pub record SceneEdge : Type 0 where
  pub id : ℕ
  pub org_id : ℕ
  pub project_id : ℕ
  pub edge_key : String
  pub from_node_key : String
  pub to_node_key : String
  pub constraint_type : String
  pub payload : Option Fields

pub record SceneSnapshot : Type 0 where
  pub id : ℕ
  pub org_id : ℕ
  pub project_id : ℕ
  pub commit_id : ℕ
  pub snapshot : Fields
  pub snapshot_format : String
  pub created_by : ℕ
