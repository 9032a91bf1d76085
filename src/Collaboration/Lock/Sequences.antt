-- ===== src/Collaboration/Lock/Sequences.antt =====
-- A first lock and what later requests meet.
use hcp.Prelude.{
  ℕ, ◌+◌, ◌<◌, ◌≡◌, ◌≢◌, refl, sym, ap, String, Bool, true, false, Option, none, some, [], ◌∷◌,
  ◌++◌, arith, eq_refl, first_where,
}
use hcp.Prelude.Table.{first_where-snoc}
use hcp.Json.{null}
use hcp.Auth.{CurrentUser}
use hcp.Db.{SoftLock, Db, Session, consistent, open_session, same_event}
use hcp.Db.Consistency.{add_event, consistent-add_event}
use hcp.Action.{Result, ok}
use hcp.Events.{Runtime, event_row, soft_lock_acquired, soft_lock_acquired_dedupe_key}
use hcp.Events.Publish.{logged-add_event}
use hcp.Access.{MayEdit, seconds}
use hcp.Collaboration.Lock.{
  lock_at, new_lock, held_by_other, set_locks, acquired_event, acquire_soft_lock,
}
use hcp.Collaboration.Lock.Kept.{consistent-add_lock}
use hcp.Collaboration.Lock.Holding.{
  acquired-refs, bars, announced, announced-logged, acquire_blocked, acquire_first, acquire_lost,
}

module _ (rt : Runtime) (user : CurrentUser) (project : ℕ) (path : String) (session : Option String)
    (ttl now id : ℕ) (db : Db) (may : MayEdit user project db) (c : consistent db ≡ true)
    (free : first_where (lock_at user project path) db.locks ≡ none)
    (fresh : announced rt user project path db ≡ false) where
  abbrev mine : SoftLock
  mine = new_lock user project path session (now + seconds ttl) now id

  -- The database after the first lock is committed.
  abbrev pub locked : Db
  locked = (acquire_soft_lock rt user project path session ttl now id (open_session db)).1.current

  abbrev locked_view : Db
  locked_view =
      add_event (set_locks (db.locks ++ mine ∷ []) db)
        (event_row rt (acquired_event rt user project path mine))

  locked-eq : locked ≡ locked_view
  locked-eq =
      ap (λ (r : Result (SoftLock × Bool) × Session). r.1.current)
        (acquire_first rt user project path session ttl now id db may c free fresh)

  found-mine :
      (v : CurrentUser)
      → v.org_id ≡ user.org_id
      → first_where (lock_at v project path) locked_view.locks ≡ some mine
  unfolding lock_at new_lock
  found-mine v same = rw same (
      first_where-snoc (lock_at user project path) db.locks mine free
        (ground (arith, eq_refl path)))

  locked-MayEdit : (v : CurrentUser) → MayEdit v project db → MayEdit v project locked_view
  locked-MayEdit v m = record {
    editor = m.editor;
    project = m.project;
    found = m.found;
    known = m.known;
  }

  -- In a consistent database an editor acquires a path that has no lock and was never announced as
  -- locked, and this is committed. Until the lock expires, any other editor of the organisation who
  -- acquires the path is answered the lock of its holder with `acquired = False`, and nothing
  -- changes.
  pub acquire_exclusive :
      (v : CurrentUser) (other_session : Option String) (other_ttl later other_id : ℕ)
      → MayEdit v project db
      → v.org_id ≡ user.org_id
      → v.id ≢ user.id
      → later < now + seconds ttl
      → acquire_soft_lock rt v project path other_session other_ttl later other_id
          (open_session locked)
        ≡ (
          ok (new_lock user project path session (now + seconds ttl) now id, false),
          open_session locked,
        )
  unfolding held_by_other new_lock
  acquire_exclusive v other_session other_ttl later other_id m same differs soon = rw locked-eq (
      acquire_blocked rt v project path other_session other_ttl later other_id locked_view
        (locked-MayEdit v m) mine (found-mine v same)
        (ground (arith, λ (e : user.id ≡ v.id). differs (sym e))))

  locked-consistent : consistent locked_view ≡ true
  locked-consistent =
      rw
        (consistent-add_event (set_locks (db.locks ++ mine ∷ []) db)
          (event_row rt (acquired_event rt user project path mine)))
        (ground (
          arith,
          consistent-add_lock db c user project path session (now + seconds ttl) now id free,
          announced-logged rt user project path mine db,
          fresh,
          acquired-refs rt user project path (set_locks (db.locks ++ mine ∷ []) db)
              (record {
                editor = may.editor;
                project = may.project;
                found = may.found;
                known = may.known;
              })
              mine,
        ))

  announced-add : announced rt user project path locked_view ≡ true
  unfolding same_event event_row soft_lock_acquired acquired_event
  announced-add =
      logged-add_event rt (acquired_event rt user project path mine)
        (soft_lock_acquired rt user.org_id project path user.id null)
        (set_locks (db.locks ++ mine ∷ []) db)
        (ground (arith, eq_refl (soft_lock_acquired_dedupe_key path)))

  not-barred :
      (later : ℕ)
      → bars user later (first_where (lock_at user project path) locked_view.locks) ≡ false
  unfolding held_by_other new_lock
  not-barred later = rw (found-mine user refl) (ground arith)

  -- In a consistent database an editor acquires a path that has no lock and was never announced as
  -- locked, and this is committed. When the same user acquires the path again, at any time, the
  -- answer is `acquired = True`, and the database stays as it was, with the lock as it was first
  -- stored, its expiry included.
  pub renewal_lost :
      (again : Option String) (more later other_id : ℕ)
      → (lock : SoftLock) × (acquire_soft_lock rt user project path again more later other_id
            (open_session locked)
          ≡ (ok (lock, true), open_session locked))
        × (first_where (lock_at user project path) locked.locks
            ≡ some (new_lock user project path session (now + seconds ttl) now id))
  renewal_lost again more later other_id = rw locked-eq (
      let (lock, e) =
        acquire_lost rt user project path again more later other_id locked_view
          (locked-MayEdit user may) locked-consistent announced-add (not-barred later) in
      (lock, e, found-mine user refl))
