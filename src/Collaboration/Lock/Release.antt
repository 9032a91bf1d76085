-- ===== src/Collaboration/Lock/Release.antt =====
-- Who may release a lock.
use hcp.Prelude.{
  ℕ, ◌≡◌, ap, subst, true, not, ◌||◌, Option, none, some, List, arith, ◌==◌, first_where, select,
  Bool-cases, inl, inr,
}
use hcp.Prelude.Table.{first_where_sound}
use hcp.Auth.{CurrentUser, role_at_least}
use hcp.Db.{SoftLock, Db, Session, open_session}
use hcp.Action.{Result, ok, err, flush, bind-eq-ok, pure, forbidden}
use hcp.Events.{Runtime, publish}
use hcp.Access.{MayEdit, as_editor-pass}
use hcp.Collaboration.Lock.{
  released_event, set_locks, lock_by_id, drop_lock, release_found, release_soft_lock,
}

drop_lock-answers :
    (rt : Runtime) (user : CurrentUser) (project lock_id : ℕ) (rows : List SoftLock)
    (lock got : SoftLock) (s : Session)
    → (drop_lock rt user project lock_id rows lock s).0 ≡ ok got
    → lock ≡ got
unfolding drop_lock
drop_lock-answers rt user project lock_id rows lock got s h =
    let (_, t, _, h1) =
      bind-eq-ok
        (flush
          (record s { current = set_locks (select (λ r. not (r.id == lock.id)) rows) s.current }))
        _ h in
    let (_, u, _, h2) =
      bind-eq-ok (publish rt (released_event rt user project lock_id lock) t) (λ _. pure lock) h1 in
    cc h2

module _ (rt : Runtime) (user : CurrentUser) (project lock_id : ℕ) (db : Db) where
  release_found-allowed :
      (found : Option SoftLock) (lock : SoftLock)
      → (release_found rt user project lock_id db.locks found (open_session db)).0 ≡ ok lock
      → (found ≡ some lock)
        × ((lock.holder_user_id == user.id || role_at_least user.role "admin") ≡ true)
  unfolding release_found
  release_found-allowed none lock h = cc
  release_found-allowed (some old) lock h =
      elim (Bool-cases (old.holder_user_id == user.id || role_at_least user.role "admin")) [
        | inr bad ↦
            let h' : ◌≡◌ {A = Result SoftLock} (err forbidden) (ok lock) = rw bad at h in cc h'
        | inl good ↦
            let e =
              drop_lock-answers rt user project lock_id db.locks old lock (open_session db)
                (rw good at h) in
            (
              ap some e,
              subst
                  (λ (l : SoftLock).
                    (l.holder_user_id == user.id || role_at_least user.role "admin") ≡ true)
                  e good,
            )
      ]

  asked :
      MayEdit user project db
      → release_soft_lock rt user project lock_id (open_session db)
        ≡ release_found rt user project lock_id db.locks
            (first_where (lock_by_id user project lock_id) db.locks)
            (open_session db)
  unfolding release_soft_lock
  asked may = as_editor-pass user project db _ may

  -- If an editor's release of a lock answers a lock, then the editor is its holder or an
  -- administrator, and the lock has the identifier that was given, the caller's organisation and
  -- the given project.
  pub release_allowed :
      (lock : SoftLock)
      → MayEdit user project db
      → (release_soft_lock rt user project lock_id (open_session db)).0 ≡ ok lock
      → ((lock.holder_user_id == user.id || role_at_least user.role "admin") ≡ true)
        × (lock.id ≡ lock_id)
        × (lock.org_id ≡ user.org_id)
        × (lock.project_id ≡ project)
  unfolding lock_by_id
  release_allowed lock may h =
      let (found, good) =
        release_found-allowed (first_where (lock_by_id user project lock_id) db.locks) lock
          (rw (asked may) at h) in
      let at_id = first_where_sound (lock_by_id user project lock_id) db.locks found in
      (good, ground (arith, at_id), ground (arith, at_id), ground (arith, at_id))
