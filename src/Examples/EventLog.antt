-- ===== src/Examples/EventLog.antt =====
-- The event log, at concrete events.
use hcp.Prelude.{
  Listed, ◌≡◌, refl, ℕ, Bool, true, false, not, ◌&&◌, String, Option, none, some, List, [], ◌∷◌,
  any, str_eq, ◌==◌, first_where,
}
use hcp.Json.{null}
use hcp.Db.{EventRow, Db, Session, consistent, open_session, event_clash}
use hcp.Db.Consistency.{add_event}
use hcp.Action.{ok}
use hcp.Events.{Event, event_row, publish, commit_created}
use hcp.Events.Publish.{publish_idempotent}
use hcp.Examples.{runtime, start}

abbrev created : Event
created = commit_created runtime 1 1 1 1 null

abbrev again : Db
again = add_event start (event_row runtime created)

-- A transaction that published the event already, and has not committed it.
abbrev pending : Session
pending = record { committed = start; current = again }

publish_idempotent_example :
    let log = event_row runtime created ∷ [] in
    ((publish runtime created (open_session start)).0 ≡ ok (event_row runtime created, true))
    × ((publish runtime created (open_session start)).1.current.events ≡ log)
    × ((old : EventRow) × Listed old log
        × (event_clash old (event_row runtime created) ≡ true)
        × (publish runtime created
              (open_session (publish runtime created (open_session start)).1.current)
            ≡ (
              ok (old, false),
              open_session (publish runtime created (open_session start)).1.current,
            )))
unfolding consistent hcp.Db.unique_rows hcp.Db.event_refs hcp.Db.parent_refs hcp.Db.identity_ref
    hcp.Db.snapshot_refs hcp.Prelude.every any event_clash commit_created hcp.Prelude.Table.unique
    event_row
publish_idempotent_example = publish_idempotent runtime created created start refl refl refl refl
