-- ===== src/Collaboration/Lock.antt =====
-- Advisory soft locks: the methods of CollaborationService on `collaboration_soft_locks`.
pub mod Kept
pub mod Holding
pub mod Sequences
pub mod Release
use hcp.Prelude.{
  ℕ, ◌-◌, ◌+◌, ◌*◌, ◌≡◌, String, Bool, true, false, not, ◌&&◌, ◌||◌, Option, none, some, List, [],
  ◌∷◌, ◌++◌, ◌==◌, ltb, leb, str_eq, if◌then◌else◌, length, select, sort_by, pos, first_where,
  update_where,
}
use hcp.Json.{Json, bool, num, str, obj, Fields, end, field, opt_str, merge_fields}
use hcp.Auth.{CurrentUser, role_at_least}
use hcp.Db.{Project, Presence, SoftLock, EventRow, Db, Session, consistent, open_session}
use hcp.Action.{
  Action, ok, err, pure, raise, ◌>>=◌, ◌>>◌, gets, modify, guard, or_raise, flush,
  project_not_found, forbidden, lock_not_found,
}
use hcp.Events.{
  Runtime, Event, publish, heartbeat_bucket_ts, presence_joined, presence_heartbeat, presence_left,
  soft_lock_acquired, soft_lock_released, cross_domain_alert, crdt_operation,
}
use hcp.Access.{seconds, require_project, require_editor, as_editor}

abbrev soft_lock_ttl_seconds : ℕ
soft_lock_ttl_seconds = 300

unfoldable pub lock_at : CurrentUser → ℕ → String → SoftLock → Bool
lock_at user project_id resource_path r =
    r.org_id == user.org_id && (r.project_id == project_id) && str_eq r.resource_path resource_path

unfoldable pub lock_by_id : CurrentUser → ℕ → ℕ → SoftLock → Bool
lock_by_id user project_id lock_id r =
    r.id == lock_id && (r.org_id == user.org_id) && (r.project_id == project_id)

lock_of : ℕ → ℕ → SoftLock → Bool
lock_of org_id project_id r = r.org_id == org_id && (r.project_id == project_id)

-- What acquiring writes into a row that is there.
pub take_over : ℕ → Option String → ℕ → ℕ → SoftLock → SoftLock
take_over user_id session_id expires now row = record row {
  holder_user_id = user_id;
  holder_session_id = session_id;
  expires_at = expires;
  updated_at = now;
}

unfoldable pub new_lock : CurrentUser → ℕ → String → Option String → ℕ → ℕ → ℕ → SoftLock
new_lock user project_id resource_path session_id expires now new_id = record {
  id = new_id;
  org_id = user.org_id;
  project_id = project_id;
  resource_path = resource_path;
  holder_user_id = user.id;
  holder_session_id = session_id;
  advisory = true;
  expires_at = expires;
  updated_at = now;
}

-- Someone else holds an unexpired lock.
unfoldable pub held_by_other : CurrentUser → ℕ → SoftLock → Bool
held_by_other user now existing =
    ltb now existing.expires_at && not (existing.holder_user_id == user.id)

abbrev pub set_locks : List SoftLock → Db → Db
set_locks rows db = record db { locks = rows }

-- An object of the session shows its row as the transaction sees it; one whose row is gone, after
-- a rollback or a delete, keeps its attributes.
pub reload_lock : SoftLock → List SoftLock → SoftLock
reload_lock lock rows = elim (first_where (λ r. r.id == lock.id) rows) [ none ↦ lock | some r ↦ r ]

-- ORDER BY expires_at ASC
soonest_first : SoftLock → SoftLock → Bool
soonest_first a b = leb a.expires_at b.expires_at

matches_path : Option String → SoftLock → Bool
matches_path none r = true
matches_path (some p) r = str_eq r.resource_path p

list_soft_locks : CurrentUser → ℕ → Option String → ℕ → Action (List SoftLock)
unfolding soonest_first
list_soft_locks user project_id resource_path now = do
  require_project project_id user.org_id
  rows ← gets (λ db.
      sort_by soonest_first
        (select (λ r. lock_of user.org_id project_id r && matches_path resource_path r) db.locks))
  pure (select (λ r. ltb now r.expires_at) rows)

module _ (rt : Runtime) where
  pub acquired_event : CurrentUser → ℕ → String → SoftLock → Event
  acquired_event user project_id resource_path lock =
      soft_lock_acquired rt user.org_id project_id resource_path user.id (
        obj (
          field "lock_id" (str (rt.uuid_text lock.id)) (
            field "resource_path" (str resource_path) (
              field "holder_user_id" (str (rt.uuid_text user.id))
                (field "advisory" (bool true) end)))))

  -- The end of `acquire_soft_lock`, from its flush on.
  save_lock : CurrentUser → ℕ → String → SoftLock → List SoftLock → Action (SoftLock × Bool)
  unfolding acquired_event
  save_lock user project_id resource_path lock rows = do
    modify (set_locks rows)
    flush
    publish rt (acquired_event user project_id resource_path lock)
    after ← gets (λ db. db.locks)
    pure (reload_lock lock after, true)

  acquire_found :
      CurrentUser
      → ℕ
      → String
      → Option String
      → (expires now new_id : ℕ) → List SoftLock
      → Option SoftLock
      → Action (SoftLock × Bool)
  unfolding save_lock
  acquire_found user project_id resource_path session_id expires now new_id rows none =
      let lock = new_lock user project_id resource_path session_id expires now new_id in
      save_lock user project_id resource_path lock (rows ++ lock ∷ [])
  acquire_found user project_id resource_path session_id expires now new_id rows (some existing) =
      if held_by_other user now existing
      then pure (existing, false)
      else save_lock user project_id resource_path
          (take_over user.id session_id expires now existing)
          (update_where (λ r. r.id == existing.id) (take_over user.id session_id expires now) rows)

  pub acquire_soft_lock :
      CurrentUser
      → ℕ
      → String
      → Option String
      → (ttl_seconds now new_id : ℕ) → Action (SoftLock × Bool)
  unfolding acquire_found as_editor
  acquire_soft_lock user project_id resource_path session_id ttl_seconds now new_id =
      as_editor user project_id λ s.
        acquire_found user project_id resource_path session_id (now + seconds ttl_seconds) now
          new_id s.current.locks
          (first_where (lock_at user project_id resource_path) s.current.locks) s

  pub released_event : CurrentUser → ℕ → ℕ → SoftLock → Event
  released_event user project_id lock_id lock =
      soft_lock_released rt user.org_id project_id lock.resource_path lock_id user.id (
        obj (
          field "lock_id" (str (rt.uuid_text lock_id))
            (field "resource_path" (str lock.resource_path) end)))

  -- The end of `release_soft_lock`, after its checks.
  unfoldable pub drop_lock : CurrentUser → ℕ → ℕ → List SoftLock → SoftLock → Action SoftLock
  unfolding released_event
  drop_lock user project_id lock_id rows lock = do
    modify (set_locks (select (λ r. not (r.id == lock.id)) rows))
    flush
    publish rt (released_event user project_id lock_id lock)
    pure lock

  unfoldable pub release_found :
      CurrentUser → ℕ → ℕ → List SoftLock → Option SoftLock → Action SoftLock
  unfolding drop_lock
  release_found user project_id lock_id rows none = raise lock_not_found
  release_found user project_id lock_id rows (some lock) =
      if lock.holder_user_id == user.id || role_at_least user.role "admin"
      then drop_lock user project_id lock_id rows lock
      else raise forbidden

  unfoldable pub release_soft_lock : CurrentUser → ℕ → ℕ → Action SoftLock
  unfolding release_found as_editor
  release_soft_lock user project_id lock_id = as_editor user project_id λ s.
      release_found user project_id lock_id s.current.locks
        (first_where (lock_by_id user project_id lock_id) s.current.locks) s
