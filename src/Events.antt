-- ===== src/Events.antt =====
-- api/app/services/events.py, event_emission.py and event_taxonomy.py: the publisher and the hooks
-- that choose an event's type and its dedupe key. What the services take from Python's `uuid` and
-- `str` is the record `Runtime`.
pub mod Publish
pub mod Taxonomy
use Prim.Native.String.{◌++◌}
use hcp.Prelude.{
  ℕ, ◌/◌, String, Bool, true, false, Option, none, some, List, [], ◌∷◌, ◌&&◌, ◌||◌, ◌==◌, str_eq,
  if◌then◌else◌, any, first_where,
}
use hcp.Json.{Json}
use hcp.Db.{EventRow, Db, Session, same_event, consistent, rollback}
use hcp.Db.Consistency.{add_event}
use hcp.Action.{Result, ok, err, Action, integrity_error}

pub record Runtime : Type 0 where
  -- str(uuid)
  pub uuid_text : ℕ → String
  -- str(int)
  pub int_text : ℕ → String
  -- uuid.uuid5(_EVENT_ID_NAMESPACE, name)
  pub uuid5 : String → ℕ

-- The arguments of EventPublisher.publish. The hooks give no event_id.
pub record Event : Type 0 where
  pub event_id : Option ℕ
  pub org_id : ℕ
  pub project_id : ℕ
  pub event_type : String
  pub dedupe_key : String
  pub actor_id : Option ℕ
  pub source : String
  pub metadata : Json

-- int(ts.timestamp()) // bucket_seconds, of an instant in microseconds
pub heartbeat_bucket_ts : ℕ → ℕ → ℕ
heartbeat_bucket_ts now bucket_seconds = now / 1000000 / bucket_seconds

-- The two queries of the handler of IntegrityError.
pub existing_event : EventRow → List EventRow → Option EventRow
existing_event row events = elim (first_where (λ e. e.event_id == row.event_id) events) [
  | some e ↦ some e
  | none ↦ first_where (λ e. same_event e row) events
]

module _ (rt : Runtime) where
  deterministic_event_id : ℕ → ℕ → String → String → ℕ
  deterministic_event_id org_id project_id event_type dedupe_key = rt.uuid5 (
      rt.uuid_text org_id
      ++ ":"
      ++ rt.uuid_text project_id
      ++ ":"
      ++ event_type
      ++ ":"
      ++ dedupe_key)

  unfoldable pub event_row : Event → EventRow
  unfolding deterministic_event_id
  event_row e = record {
    event_id = elim e.event_id [
      | some id ↦ id
      | none ↦ deterministic_event_id e.org_id e.project_id e.event_type e.dedupe_key
    ];
    org_id = e.org_id;
    project_id = e.project_id;
    event_type = e.event_type;
    dedupe_key = e.dedupe_key;
    actor_id = e.actor_id;
    source = e.source;
    metadata = e.metadata;
  }

  -- The flush sends every pending row, so an error in any of them lands in the handler, and the
  -- rollback there undoes the whole transaction of the caller.
  unfoldable pub publish : Event → Action (EventRow × Bool)
  unfolding existing_event
  publish e s =
      let row = event_row e in
      let added = record s { current = add_event s.current row } in
      let back = rollback s in
      if consistent added.current
      then (ok (row, true), added)
      else elim (existing_event row back.current.events) [
        | some old ↦ (ok (old, false), back)
        | none ↦ (err integrity_error, back)
      ]

  presence_heartbeat_dedupe_key : String → ℕ → String
  presence_heartbeat_dedupe_key session_id bucket_ts =
      "presence:" ++ session_id ++ ":hb:" ++ rt.int_text bucket_ts

  soft_lock_released_dedupe_key : String → ℕ → String
  soft_lock_released_dedupe_key resource_path lock_id =
      "lock:" ++ resource_path ++ ":released:" ++ rt.uuid_text lock_id

  commit_created_dedupe_key : ℕ → String
  commit_created_dedupe_key commit_id = "commit:" ++ rt.uuid_text commit_id

  merge_created_dedupe_key : ℕ → String
  merge_created_dedupe_key merge_id = "merge:" ++ rt.uuid_text merge_id

  conflict_detected_dedupe_key : ℕ → String
  conflict_detected_dedupe_key merge_id = "merge:" ++ rt.uuid_text merge_id ++ ":conflicts"

presence_joined_dedupe_key : String → String
presence_joined_dedupe_key session_id = "presence:" ++ session_id ++ ":joined"

presence_left_dedupe_key : String → String
presence_left_dedupe_key session_id = "presence:" ++ session_id ++ ":left"

pub soft_lock_acquired_dedupe_key : String → String
soft_lock_acquired_dedupe_key resource_path = "lock:" ++ resource_path ++ ":acquired"

cross_domain_alert_dedupe_key : String → String
cross_domain_alert_dedupe_key alert_key = "alert:" ++ alert_key

pub crdt_operation_dedupe_key : String → String → String
crdt_operation_dedupe_key document_id operation_id = "crdt:" ++ document_id ++ ":" ++ operation_id

-- EventEmissionHooks: the event of each hook.
module _ (rt : Runtime) (org_id project_id : ℕ) where
  unfoldable pub commit_created : ℕ → ℕ → Json → Event
  unfolding commit_created_dedupe_key
  commit_created commit_id actor_id metadata = record {
    event_id = none;
    org_id = org_id;
    project_id = project_id;
    event_type = "commit_created";
    dedupe_key = commit_created_dedupe_key rt commit_id;
    actor_id = some actor_id;
    source = "hos";
    metadata = metadata;
  }

  pub merge_created : ℕ → ℕ → Json → Event
  unfolding merge_created_dedupe_key
  merge_created merge_id actor_id metadata = record {
    event_id = none;
    org_id = org_id;
    project_id = project_id;
    event_type = "merge_created";
    dedupe_key = merge_created_dedupe_key rt merge_id;
    actor_id = some actor_id;
    source = "hos";
    metadata = metadata;
  }

  pub conflict_detected : ℕ → ℕ → Json → Event
  unfolding conflict_detected_dedupe_key
  conflict_detected merge_id actor_id metadata = record {
    event_id = none;
    org_id = org_id;
    project_id = project_id;
    event_type = "conflict_detected";
    dedupe_key = conflict_detected_dedupe_key rt merge_id;
    actor_id = some actor_id;
    source = "hos";
    metadata = metadata;
  }

  unfoldable pub presence_heartbeat : String → ℕ → ℕ → Json → Event
  unfolding presence_heartbeat_dedupe_key
  presence_heartbeat session_id actor_id bucket_ts metadata = record {
    event_id = none;
    org_id = org_id;
    project_id = project_id;
    event_type = "presence_heartbeat";
    dedupe_key = presence_heartbeat_dedupe_key rt session_id bucket_ts;
    actor_id = some actor_id;
    source = "collaboration";
    metadata = metadata;
  }

  unfoldable pub presence_joined : String → ℕ → Json → Event
  unfolding presence_joined_dedupe_key
  presence_joined session_id actor_id metadata = record {
    event_id = none;
    org_id = org_id;
    project_id = project_id;
    event_type = "presence_joined";
    dedupe_key = presence_joined_dedupe_key session_id;
    actor_id = some actor_id;
    source = "collaboration";
    metadata = metadata;
  }

  pub presence_left : String → ℕ → Json → Event
  unfolding presence_left_dedupe_key
  presence_left session_id actor_id metadata = record {
    event_id = none;
    org_id = org_id;
    project_id = project_id;
    event_type = "presence_left";
    dedupe_key = presence_left_dedupe_key session_id;
    actor_id = some actor_id;
    source = "collaboration";
    metadata = metadata;
  }

  unfoldable pub soft_lock_acquired : String → ℕ → Json → Event
  unfolding soft_lock_acquired_dedupe_key
  soft_lock_acquired resource_path actor_id metadata = record {
    event_id = none;
    org_id = org_id;
    project_id = project_id;
    event_type = "soft_lock_acquired";
    dedupe_key = soft_lock_acquired_dedupe_key resource_path;
    actor_id = some actor_id;
    source = "collaboration";
    metadata = metadata;
  }

  unfoldable pub soft_lock_released : String → ℕ → ℕ → Json → Event
  unfolding soft_lock_released_dedupe_key
  soft_lock_released resource_path lock_id actor_id metadata = record {
    event_id = none;
    org_id = org_id;
    project_id = project_id;
    event_type = "soft_lock_released";
    dedupe_key = soft_lock_released_dedupe_key rt resource_path lock_id;
    actor_id = some actor_id;
    source = "collaboration";
    metadata = metadata;
  }

  pub cross_domain_alert : String → ℕ → Json → Event
  unfolding cross_domain_alert_dedupe_key
  cross_domain_alert alert_key actor_id metadata = record {
    event_id = none;
    org_id = org_id;
    project_id = project_id;
    event_type = "cross_domain_alert";
    dedupe_key = cross_domain_alert_dedupe_key alert_key;
    actor_id = some actor_id;
    source = "collaboration";
    metadata = metadata;
  }

  pub crdt_operation : String → String → ℕ → Json → Event
  unfolding crdt_operation_dedupe_key
  crdt_operation document_id operation_id actor_id metadata = record {
    event_id = none;
    org_id = org_id;
    project_id = project_id;
    event_type = "crdt_operation";
    dedupe_key = crdt_operation_dedupe_key document_id operation_id;
    actor_id = some actor_id;
    source = "collaboration";
    metadata = metadata;
  }
