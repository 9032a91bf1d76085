-- ===== src/Objects.antt =====
-- api/app/services/lifecycle.py, api/app/services/audit.py, and the part of
-- api/app/services/objects.py that reads objects, promotes versions and deletes objects.
pub mod Runs
pub mod Promotion
pub mod Examples
use Prim.Native.String.{◌++◌ as append_text}
use hcp.Prelude.{
  ℕ, String, Bool, true, false, not, ◌&&◌, Option, none, some, List, [], ◌∷◌, ◌++◌, ◌==◌, leb,
  str_eq, if◌then◌else◌, pos, select, first_where, update_where, sort_by,
}
use hcp.Json.{Json, num, str, obj, end, field}
use hcp.Auth.{CurrentUser, role_at_least, can_admin}
use hcp.Db.{HardwareObject, Version, AuditLog, Db, Session}
use hcp.Action.{Action, pure, raise, ◌>>=◌, ◌>>◌, gets, modify, invalid_transition, forbidden}
use hcp.Events.{Runtime, Event, publish}

-- LIFECYCLE_TRANSITIONS.get((from_state, to_state)): the least role, and the name of the event
pub validate_transition : String → String → Option (String × String)
validate_transition from_state to_state =
    if str_eq from_state "draft" && str_eq to_state "in_review"
    then some ("editor", "lifecycle_submit")
    else if str_eq from_state "in_review" && str_eq to_state "draft"
    then some ("approver", "lifecycle_reject")
    else if str_eq from_state "in_review" && str_eq to_state "approved"
    then some ("approver", "lifecycle_approve")
    else if str_eq from_state "approved" && str_eq to_state "released"
    then some ("approver", "lifecycle_release")
    else if str_eq from_state "released" && str_eq to_state "obsolete"
    then some ("admin", "lifecycle_obsolete")
    else none

-- write_audit of audit.py
add_audit : AuditLog → Action (Unit {0})
add_audit entry = modify (λ db. record db { audit_log = db.audit_log ++ entry ∷ [] })

unfoldable pub is_deleted : HardwareObject → Bool
is_deleted o = elim o.deleted_at [ none ↦ false | some _ ↦ true ]

-- get_object, for objects that are not deleted
unfoldable pub object_at : (object_id org_id : ℕ) → HardwareObject → Bool
unfolding is_deleted
object_at object_id org_id o = o.id == object_id && (o.org_id == org_id) && not (is_deleted o)

unfoldable pub get_object : (object_id org_id : ℕ) → Db → Option HardwareObject
unfolding object_at
get_object object_id org_id db = first_where (object_at object_id org_id) db.objects

-- ORDER BY version_num DESC
unfoldable pub latest_first : Version → Version → Bool
latest_first a b = leb b.version_num a.version_num

unfoldable pub versions_of : ℕ → Db → List Version
unfolding latest_first
versions_of object_id db = sort_by latest_first (select (λ v. v.object_id == object_id) db.versions)

unfoldable pub list_versions : (object_id org_id : ℕ) → Db → List Version
unfolding versions_of get_object
list_versions object_id org_id db = elim (get_object object_id org_id db) [
  | none ↦ []
  | some _ ↦ versions_of object_id db
]

unfoldable pub get_version : (object_id version_num org_id : ℕ) → Db → Option Version
get_version object_id version_num org_id db =
    first_where
      (λ v. v.object_id == object_id && (v.version_num == version_num) && (v.org_id == org_id))
      db.versions

pub move_version : ℕ → String → Db → Db
move_version id target db = record db {
  versions =
      update_where (λ v. v.id == id) (λ v. record v { lifecycle_state = target }) db.versions;
}

-- The version as the transaction sees its row.
reload_version : Version → List Version → Version
reload_version version rows = elim (first_where (λ v. v.id == version.id) rows) [
  | none ↦ version
  | some v ↦ v
]

module _ (rt : Runtime) (user : CurrentUser) (version : Version) (target_state : String) where
  transition_key : String
  transition_key = append_text "version:" (
      append_text (rt.uuid_text version.id) (
        append_text ":lifecycle:"
          (append_text version.lifecycle_state (append_text ":" target_state))))

  pub transition_event : HardwareObject → Event
  unfolding transition_key
  transition_event hw = record {
    event_id = none;
    org_id = user.org_id;
    project_id = hw.project_id;
    event_type = "lifecycle_transition";
    dedupe_key = transition_key;
    actor_id = some user.id;
    source = "api";
    metadata = obj (
        field "object_id" (str (rt.uuid_text version.object_id)) (
          field "version_id" (str (rt.uuid_text version.id)) (
            field "version_num" (num (pos version.version_num)) (
              field "from_state" (str version.lifecycle_state)
                (field "to_state" (str target_state) end)))));
  }

  pub transition_audit : Option String → AuditLog
  transition_audit comment = record {
    org_id = user.org_id;
    object_id = version.object_id;
    version_num = version.version_num;
    event_type = "lifecycle_transition";
    from_state = some version.lifecycle_state;
    to_state = some target_state;
    actor_id = user.id;
    actor_email = user.email;
    comment = comment;
    metadata = none;
  }

  announce_transition : Option HardwareObject → Action (Unit {0})
  unfolding transition_event
  announce_transition none = pure tt
  announce_transition (some hw) = do publish rt (transition_event hw); pure tt

  -- `promote` from the new state on.
  move_to_target : Option String → Action Version
  unfolding move_version add_audit transition_audit announce_transition reload_version
  move_to_target comment = do
    modify (move_version version.id target_state)
    add_audit (transition_audit comment)
    hw ← gets (get_object version.object_id user.org_id)
    announce_transition hw
    rows ← gets (λ db. db.versions)
    pure (reload_version (record version { lifecycle_state = target_state }) rows)

  promote_with : Option (String × String) → Option String → Action Version
  unfolding move_to_target
  promote_with none comment = raise invalid_transition
  promote_with (some (min_role, event)) comment =
      if role_at_least user.role min_role then move_to_target comment else raise forbidden

  -- `version` is the row as the session has loaded it.
  pub promote : Option String → Action Version
  unfolding promote_with
  promote comment = promote_with (validate_transition version.lifecycle_state target_state) comment

delete_object : ℕ → ℕ → Db → Db
delete_object id now db = record db {
  objects = update_where (λ o. o.id == id) (λ o. record o { deleted_at = some now }) db.objects;
}

latest_version_num : List Version → ℕ
latest_version_num [] = 0
latest_version_num (v ∷ _) = v.version_num

mark_deleted : (now : ℕ) → CurrentUser → HardwareObject → Action HardwareObject
unfolding delete_object latest_version_num versions_of add_audit
mark_deleted now user hw_object = do
  modify (delete_object hw_object.id now)
  version_num ← gets (λ db. latest_version_num (versions_of hw_object.id db))
  add_audit (record {
    org_id = user.org_id;
    object_id = hw_object.id;
    version_num = version_num;
    event_type = "object_deleted";
    from_state = none;
    to_state = none;
    actor_id = user.id;
    actor_email = user.email;
    comment = none;
    metadata = none;
  })
  pure (record hw_object { deleted_at = some now })

pub soft_delete : (now : ℕ) → CurrentUser → HardwareObject → Action HardwareObject
unfolding mark_deleted
soft_delete now user hw_object =
    if can_admin user.role then mark_deleted now user hw_object else raise forbidden
