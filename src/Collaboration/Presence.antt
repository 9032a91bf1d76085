-- ===== src/Collaboration/Presence.antt =====
-- Polling presence: the methods of CollaborationService on `collaboration_presence`.
pub mod Kept
pub mod Heartbeats
pub mod Pruning
use hcp.Prelude.{
  ℕ, ◌-◌, ◌+◌, ◌*◌, ◌≡◌, String, Bool, true, false, not, ◌&&◌, ◌||◌, Option, none, some, List, [],
  ◌∷◌, ◌++◌, ◌==◌, ltb, leb, str_eq, if◌then◌else◌, length, select, sort_by, pos, first_where,
  update_where,
}
use hcp.Json.{Json, bool, num, str, obj, Fields, end, field, opt_str, merge_fields}
use hcp.Auth.{CurrentUser, role_at_least}
use hcp.Db.{Project, Presence, SoftLock, EventRow, Db, Session, consistent, open_session}
use hcp.Action.{
  Action, ok, err, pure, raise, ◌>>=◌, ◌>>◌, gets, modify, guard, or_raise, flush,
  project_not_found, forbidden, lock_not_found,
}
use hcp.Events.{
  Runtime, Event, publish, heartbeat_bucket_ts, presence_joined, presence_heartbeat, presence_left,
  soft_lock_acquired, soft_lock_released, cross_domain_alert, crdt_operation,
}
use hcp.Access.{seconds, require_project, require_editor, as_editor}

abbrev presence_ttl_seconds : ℕ
presence_ttl_seconds = 90

-- The `where` of the queries for one row of presence.
unfoldable pub presence_at : CurrentUser → ℕ → String → Presence → Bool
presence_at user project_id session_id r =
    r.org_id == user.org_id
    && (r.project_id == project_id)
    && (r.user_id == user.id)
    && str_eq r.session_id session_id

-- The rows of one project.
pub presence_of : ℕ → ℕ → Presence → Bool
presence_of org_id project_id r = r.org_id == org_id && (r.project_id == project_id)

-- What a heartbeat writes into a row.
pub refresh : Option String → Option String → Option Json → ℕ → Presence → Presence
refresh resource_path domain client_meta now row = record row {
  resource_path = resource_path;
  domain = domain;
  client_meta = elim client_meta [ none ↦ row.client_meta | some m ↦ some m ];
  last_heartbeat_at = now;
}

unfoldable pub new_presence :
    CurrentUser → ℕ → String → Option String → Option String → Option Json → ℕ → ℕ → Presence
new_presence user project_id session_id resource_path domain client_meta now new_id = record {
  id = new_id;
  org_id = user.org_id;
  project_id = project_id;
  user_id = user.id;
  session_id = session_id;
  resource_path = resource_path;
  domain = domain;
  client_meta = client_meta;
  last_heartbeat_at = now;
}

abbrev pub set_presence : List Presence → Db → Db
set_presence rows db = record db { presence = rows }

-- An object of the session shows its row as the transaction sees it; one whose row is gone, after
-- a rollback or a delete, keeps its attributes.
pub reload_presence : Presence → List Presence → Presence
reload_presence row rows = elim (first_where (λ r. r.id == row.id) rows) [ none ↦ row | some r ↦ r ]

-- ORDER BY last_heartbeat_at DESC
newest_first : Presence → Presence → Bool
newest_first a b = leb b.last_heartbeat_at a.last_heartbeat_at

-- The rows whose last heartbeat is at most 90 seconds old.
pub is_present : ℕ → Presence → Bool
is_present now r = leb (now - seconds presence_ttl_seconds) r.last_heartbeat_at

pub is_stale : ℕ → ℕ → ℕ → Presence → Bool
unfolding presence_of
is_stale now org_id project_id r =
    presence_of org_id project_id r && ltb r.last_heartbeat_at (now - seconds presence_ttl_seconds)

pub list_presence : CurrentUser → ℕ → ℕ → Action (List Presence)
unfolding newest_first
list_presence user project_id now = do
  require_project project_id user.org_id
  rows ← gets (λ db. sort_by newest_first (select (presence_of user.org_id project_id) db.presence))
  pure (select (is_present now) rows)

pub prune_stale_presence : CurrentUser → ℕ → ℕ → Action ℕ
prune_stale_presence user project_id now = do
  require_project project_id user.org_id
  rows ← gets (λ db. db.presence)
  modify (set_presence (select (λ r. not (is_stale now user.org_id project_id r)) rows))
  pure (length (select (is_stale now user.org_id project_id) rows))

module _ (rt : Runtime) where
  pub presence_meta : CurrentUser → String → Option String → Option String → Json
  presence_meta user session_id resource_path domain = obj (
      field "session_id" (str session_id) (
        field "user_id" (str (rt.uuid_text user.id))
          (field "resource_path" (opt_str resource_path) (field "domain" (opt_str domain) end))))

  -- The events that follow the flush of a heartbeat: `joined` for a new row, then the beat.
  heartbeat_events : CurrentUser → ℕ → String → Json → (now : ℕ) → Bool → Action (EventRow × Bool)
  heartbeat_events user project_id session_id meta now is_new =
      let beat = publish rt (
        presence_heartbeat rt user.org_id project_id session_id user.id (heartbeat_bucket_ts now 30)
          meta) in
      if is_new
      then publish rt (presence_joined rt user.org_id project_id session_id user.id meta) >> beat
      else beat

  -- The end of `heartbeat_presence`, from its flush on.
  save_presence :
      CurrentUser
      → ℕ
      → String
      → Json
      → (now : ℕ) → Presence
      → List Presence
      → Bool
      → Action (Presence × Bool)
  unfolding heartbeat_events
  save_presence user project_id session_id meta now row rows is_new = do
    modify (set_presence rows)
    flush
    heartbeat_events user project_id session_id meta now is_new
    after ← gets (λ db. db.presence)
    pure (reload_presence row after, is_new)

  -- The row that is there is refreshed in place, and a new one is added.
  heartbeat_found :
      CurrentUser
      → ℕ
      → String
      → Option String
      → Option String
      → Option Json
      → (now new_id : ℕ) → List Presence
      → Option Presence
      → Action (Presence × Bool)
  unfolding save_presence presence_meta
  heartbeat_found user project_id session_id resource_path domain client_meta now new_id rows none =
      let row =
        new_presence user project_id session_id resource_path domain client_meta now new_id in
      save_presence user project_id session_id (presence_meta user session_id resource_path domain)
        now row (rows ++ row ∷ []) true
  heartbeat_found user project_id session_id resource_path domain client_meta now new_id rows
        (some old) =
      save_presence user project_id session_id (presence_meta user session_id resource_path domain)
        now (refresh resource_path domain client_meta now old)
        (update_where (λ r. r.id == old.id) (refresh resource_path domain client_meta now) rows)
        false

  pub heartbeat_presence :
      CurrentUser
      → ℕ
      → String
      → Option String
      → Option String
      → Option Json
      → (now new_id : ℕ) → Action (Presence × Bool)
  unfolding heartbeat_found as_editor
  heartbeat_presence user project_id session_id resource_path domain client_meta now new_id =
      as_editor user project_id λ s.
        heartbeat_found user project_id session_id resource_path domain client_meta now new_id
          s.current.presence
          (first_where (presence_at user project_id session_id) s.current.presence) s

  leave_found : CurrentUser → ℕ → String → List Presence → Option Presence → Action Bool
  leave_found user project_id session_id rows none = pure false
  leave_found user project_id session_id rows (some row) = do
    modify (set_presence (select (λ r. not (r.id == row.id)) rows))
    flush
    publish rt (
        presence_left rt user.org_id project_id session_id user.id (
          obj (
            field "session_id" (str session_id)
              (field "user_id" (str (rt.uuid_text user.id)) end))))
    pure true

  leave_presence : CurrentUser → ℕ → String → Action Bool
  unfolding leave_found as_editor
  leave_presence user project_id session_id = as_editor user project_id λ s.
      leave_found user project_id session_id s.current.presence
        (first_where (presence_at user project_id session_id) s.current.presence) s
