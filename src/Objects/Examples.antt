-- ===== src/Objects/Examples.antt =====
-- Promotions of a version, at concrete databases.
use hcp.Prelude.{◌≡◌, refl, true, none, [], ◌∷◌, any, first_where, update_where}
use hcp.Prelude.Table.{unique}
use hcp.Auth.{role_at_least}
use hcp.Db.{HardwareObject, Version, Db, Session, consistent, open_session}
use hcp.Db.Consistency.{add_event}
use hcp.Action.{ok}
use hcp.Events.{event_row}
use hcp.Objects.{validate_transition, get_object, transition_event, transition_audit, promote}
use hcp.Objects.Runs.{stay, move, released_needs_approver}
use hcp.Objects.Promotion.{promote_moves, promote_lost}
use hcp.Examples.{runtime, alice, start}

released_needs_approver_example :
    any (λ r. role_at_least r "approver") ("approver" ∷ "approver" ∷ "editor" ∷ []) ≡ true
unfolding validate_transition role_at_least
released_needs_approver_example =
    released_needs_approver ("approver" ∷ "approver" ∷ "editor" ∷ []) (
      move {b = "approved"} {min = "approver"} {event = "lifecycle_release"}
        (move {b = "in_review"} {min = "approver"} {event = "lifecycle_approve"}
          (move {b = "draft"} {min = "editor"} {event = "lifecycle_submit"} stay refl refl) refl
          refl)
        refl refl)

abbrev board : HardwareObject
board = record {
  id = 20;
  org_id = 1;
  project_id = 1;
  name = "board";
  object_type = "PCB";
  domain = none;
  source_tool = none;
  representation = none;
  created_by = 1;
  deleted_at = none;
}

abbrev draft : Version
draft = record {
  id = 21;
  org_id = 1;
  object_id = 20;
  version_num = 1;
  filename = "board.kicad_pcb";
  content_hash = "00";
  file_size_bytes = 10;
  storage_key = "k";
  parsed_key = none;
  parse_status = "pending";
  lifecycle_state = "draft";
  uploaded_by = 1;
  description = none;
  source_tool = none;
  source_tool_version = none;
  domain = none;
  representation = none;
  derived_from_version_id = none;
  created_at = 0;
}

abbrev stored : Db
stored = record start { objects = board ∷ []; versions = draft ∷ [] }

promote_moves_example :
    (promote runtime alice draft "in_review" none (open_session stored)).1.current
    ≡ add_event
        (record stored {
          versions = record draft { lifecycle_state = "in_review" } ∷ [];
          audit_log = transition_audit runtime alice draft "in_review" none ∷ [];
        })
        (event_row runtime (transition_event runtime alice draft "in_review" board))
unfolding consistent hcp.Db.unique_rows hcp.Db.event_refs hcp.Db.parent_refs hcp.Db.identity_ref
    hcp.Db.snapshot_refs hcp.Prelude.every any unique validate_transition role_at_least get_object
    first_where update_where event_row transition_event
promote_moves_example =
    promote_moves runtime alice draft "in_review" none stored refl "editor" "lifecycle_submit" refl
      refl board refl refl refl

-- The version was submitted once, and rejected.
abbrev rejected : Db
rejected =
    add_event stored (event_row runtime (transition_event runtime alice draft "in_review" board))

promote_lost_example :
    (v : Version) × (promote runtime alice draft "in_review" none (open_session rejected)
      ≡ (ok v, open_session rejected))
unfolding consistent hcp.Db.unique_rows hcp.Db.event_refs hcp.Db.parent_refs hcp.Db.identity_ref
    hcp.Db.snapshot_refs hcp.Prelude.every any unique validate_transition role_at_least get_object
    first_where hcp.Db.event_clash event_row transition_event
promote_lost_example =
    promote_lost runtime alice draft "in_review" none rejected refl "editor" "lifecycle_submit" refl
      refl board refl refl
