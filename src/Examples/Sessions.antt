-- ===== src/Examples/Sessions.antt =====
-- Presence, at concrete sessions and times.
use hcp.Prelude.{◌≡◌, refl, true, none, [], ◌∷◌, any, first_where}
use hcp.Prelude.Table.{unique}
use hcp.Auth.{role_at_least}
use hcp.Json.{null}
use hcp.Db.{Presence, Db, consistent, open_session, event_clash}
use hcp.Db.Consistency.{add_event}
use hcp.Action.{ok}
use hcp.Events.{event_row, presence_joined, presence_heartbeat, heartbeat_bucket_ts}
use hcp.Access.{MayEdit}
use hcp.Collaboration.Presence.{
  presence_at, new_presence, set_presence, heartbeat_presence, list_presence, prune_stale_presence,
}
use hcp.Collaboration.Presence.Heartbeats.{rejoin_lost}
use hcp.Collaboration.Presence.Pruning.{list-prune}
use hcp.Examples.{runtime, alice, start}

abbrev row : Presence
row = new_presence alice 1 "tab" none none none 100000000 7

abbrev joined : Db
joined = set_presence (row ∷ []) start

joined_alice : MayEdit alice 1 joined
unfolding role_at_least first_where any
joined_alice = record {
  editor = refl;
  project = record { id = 1; org_id = 1 };
  found = refl;
  known = refl;
}

-- The row, and a beat of this session in the log.
abbrev beaten : Db
beaten = add_event joined (
    event_row runtime
      (presence_heartbeat runtime 1 1 "tab" 1 (heartbeat_bucket_ts 130000000 30) null))

beaten_alice : MayEdit alice 1 beaten
unfolding role_at_least first_where any
beaten_alice = record {
  editor = refl;
  project = record { id = 1; org_id = 1 };
  found = refl;
  known = refl;
}

-- The session has left, and its `joined` event stays in the log.
abbrev gone : Db
gone = add_event start (event_row runtime (presence_joined runtime 1 1 "tab" 1 null))

gone_alice : MayEdit alice 1 gone
unfolding role_at_least first_where any
gone_alice = record {
  editor = refl;
  project = record { id = 1; org_id = 1 };
  found = refl;
  known = refl;
}

rejoin_lost_example :
    ((heartbeat_presence runtime alice 1 "tab" none none none 130000000 8
        (open_session gone)).1.current.presence
      ≡ [])
    × ((r : Presence) × ((heartbeat_presence runtime alice 1 "tab" none none none 130000000 8
            (open_session gone)).0
          ≡ ok (r, true))
        × (presence_at alice 1 "tab" r ≡ true)
        × (r.id ≡ 8)
        × (r.resource_path ≡ none)
        × (r.last_heartbeat_at ≡ 130000000))
unfolding consistent hcp.Db.unique_rows hcp.Db.event_refs hcp.Db.parent_refs hcp.Db.identity_ref
    hcp.Db.snapshot_refs hcp.Prelude.every first_where any presence_heartbeat presence_joined
    event_row unique event_clash
rejoin_lost_example =
    rejoin_lost runtime alice 1 "tab" none none none 130000000 8 gone gone_alice refl refl refl refl
      refl

list-prune_example :
    (list_presence alice 1 200000000
      (prune_stale_presence alice 1 200000000 (open_session joined)).1).0
    ≡ (list_presence alice 1 200000000 (open_session joined)).0
unfolding first_where
list-prune_example = list-prune alice 1 200000000 joined (record { id = 1; org_id = 1 }) refl
