-- ===== src/Collaboration/Presence/Heartbeats.antt =====
-- What a heartbeat leaves in the presence table.
use hcp.Prelude.{
  eq_refl, ℕ, ◌≡◌, refl, String, true, false, Option, none, some, List, [], ◌∷◌, ◌++◌, arith, ◌==◌,
  first_where, update_where,
}
use hcp.Json.{Json}
use hcp.Auth.{CurrentUser}
use hcp.Db.{event_refs, Presence, Db, consistent, rollback, open_session}
use hcp.Db.Consistency.{add_event}
use hcp.Action.{ok}
use hcp.Events.{Runtime, Event, event_row, heartbeat_bucket_ts, presence_joined, presence_heartbeat}
use hcp.Events.Publish.{logged, publish_new, publish-logged}
use hcp.Access.{event_refs_of, MayEdit, as_editor-pass, flush-pass}
use hcp.Collaboration.Presence.{
  presence_at, refresh, new_presence, set_presence, reload_presence, presence_meta,
  heartbeat_events, save_presence, heartbeat_found, heartbeat_presence,
}
use hcp.Collaboration.Presence.Kept.{consistent-add_presence, consistent-refresh}

module _ (rt : Runtime) (user : CurrentUser) (project : ℕ) (session : String)
    (path domain : Option String) (client : Option Json) (now id : ℕ) (db : Db)
    (may : MayEdit user project db) (c : consistent db ≡ true) where
  abbrev meta : Json
  meta = presence_meta rt user session path domain

  -- The event of a heartbeat of this session in this bucket of thirty seconds.
  abbrev beat : Event
  beat = presence_heartbeat rt user.org_id project session user.id (heartbeat_bucket_ts now 30) meta

  beat-refs : event_refs db (event_row rt beat) ≡ true
  unfolding presence_heartbeat event_row
  beat-refs = event_refs_of user project db (event_row rt beat) may refl refl

  asked :
      heartbeat_presence rt user project session path domain client now id (open_session db)
      ≡ heartbeat_found rt user project session path domain client now id db.presence
          (first_where (presence_at user project session) db.presence)
          (open_session db)
  unfolding heartbeat_presence
  asked = as_editor-pass user project db _ may

  abbrev refreshed : Presence → List Presence
  refreshed old = update_where (λ r. r.id == old.id) (refresh path domain client now) db.presence

  -- In a consistent database, a heartbeat of an editor's session that has a row, with no clashing
  -- event in the log, gives the row the path, the domain and the time of the heartbeat, appends the
  -- event of the beat, and changes nothing else.
  pub heartbeat_refreshes :
      (old : Presence)
      → first_where (presence_at user project session) db.presence ≡ some old
      → logged rt beat db ≡ false
      → (heartbeat_presence rt user project session path domain client now id (open_session db)).1
        ≡ record (open_session db) {
          current = add_event (set_presence (refreshed old) db) (event_row rt beat);
        }
  unfolding heartbeat_found save_presence heartbeat_events event_refs
  heartbeat_refreshes old f free =
      let stored = record (open_session db) { current = set_presence (refreshed old) db } in
      let kept = consistent-refresh db c (λ r. r.id == old.id) path domain client now in
      rw asked (
        rw f
          (rw (flush-pass stored kept) (rw (publish_new rt beat stored kept free beat-refs) refl)))

  -- In a consistent database, a heartbeat of an editor's session that has a row changes nothing if
  -- the log has an event of a beat of the session in the same thirty seconds.
  pub heartbeat_lost :
      (old : Presence)
      → first_where (presence_at user project session) db.presence ≡ some old
      → logged rt beat db ≡ true
      → (heartbeat_presence rt user project session path domain client now id (open_session db)).1
        ≡ open_session db
  unfolding heartbeat_found save_presence heartbeat_events rollback
  heartbeat_lost old f taken =
      let stored = record (open_session db) { current = set_presence (refreshed old) db } in
      let kept = consistent-refresh db c (λ r. r.id == old.id) path domain client now in
      let (_, found, _, _) = publish-logged rt beat stored taken (ground (arith, taken)) in
      rw asked (rw f (rw (flush-pass stored kept) (rw found refl)))

  abbrev join : Event
  join = presence_joined rt user.org_id project session user.id meta

  -- In a consistent database, a heartbeat of an editor's session that has no row, whose `joined`
  -- event is in the log and whose beat is not, and whose row gets a new identifier, answers with
  -- `joined = True` a row of the session and the time of the heartbeat, and the presence table is as
  -- it was: the row that is answered is not stored.
  pub rejoin_lost :
      first_where (presence_at user project session) db.presence ≡ none
      → first_where (λ r. r.id == id) db.presence ≡ none
      → logged rt join db ≡ true
      → logged rt beat db ≡ false
      → ((heartbeat_presence rt user project session path domain client now id
            (open_session db)).1.current.presence
          ≡ db.presence)
        × ((row : Presence) × ((heartbeat_presence rt user project session path domain client now id
                (open_session db)).0
              ≡ ok (row, true))
            × (presence_at user project session row ≡ true)
            × (row.id ≡ id)
            × (row.resource_path ≡ path)
            × (row.last_heartbeat_at ≡ now))
  unfolding heartbeat_found save_presence heartbeat_events rollback reload_presence presence_at
      new_presence
  rejoin_lost f unused taken free =
      let row = new_presence user project session path domain client now id in
      let stored = record (open_session db) {
        current = set_presence (db.presence ++ row ∷ []) db;
      } in
      let kept = consistent-add_presence db c user project session path domain client now id f in
      let (_, found, _, _) = publish-logged rt join stored taken (ground (arith, taken)) in
      let beats = publish_new rt beat (open_session db) c free beat-refs in
      (
        rw asked (rw f (rw (flush-pass stored kept) (rw found (rw beats refl)))),
        (
          row,
          rw asked (
              rw f (
                rw (flush-pass stored kept)
                  (rw found (rw beats (rw (unused, reload_presence) refl))))),
          ground (arith, eq_refl session),
          refl,
          refl,
          refl,
        ),
      )
