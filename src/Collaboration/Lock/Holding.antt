-- ===== src/Collaboration/Lock/Holding.antt =====
-- Advisory soft locks: who gets one, and what becomes of it.
use hcp.Prelude.{
  ℕ, ◌+◌, ◌≡◌, refl, String, Bool, true, false, ◌∙◌, Option, none, some, List, [], ◌∷◌, ◌++◌, arith,
  ◌==◌, first_where, update_where,
}
use hcp.Json.{null}
use hcp.Auth.{CurrentUser}
use hcp.Db.{event_refs, event_clash, SoftLock, Db, Session, consistent, rollback, open_session}
use hcp.Db.Consistency.{add_event}
use hcp.Action.{ok}
use hcp.Events.{Runtime, Event, event_row, soft_lock_acquired}
use hcp.Events.Publish.{logged, publish_new, publish-logged}
use hcp.Access.{event_refs_of, MayEdit, as_editor-pass, flush-pass, seconds}
use hcp.Collaboration.Lock.{
  lock_at, take_over, new_lock, held_by_other, set_locks, reload_lock, save_lock, acquired_event,
  acquire_found, acquire_soft_lock,
}
use hcp.Collaboration.Lock.Kept.{consistent-add_lock, consistent-take_over}

module _ (rt : Runtime) (user : CurrentUser) (project : ℕ) (path : String) (lock : SoftLock)
    (rows : List SoftLock) (s : Session) (c : consistent (set_locks rows s.current) ≡ true) where
  abbrev event : Event
  event = acquired_event rt user project path lock

  -- The lock is stored, with an event, if the log has no event of the path being locked.
  save_lock_new :
      logged rt event s.current ≡ false
      → event_refs s.current (event_row rt event) ≡ true
      → save_lock rt user project path lock rows s ≡ (
        ok (reload_lock lock rows, true),
        record s { current = add_event (set_locks rows s.current) (event_row rt event) },
      )
  unfolding save_lock event_refs
  save_lock_new free refs =
      let locked = record s { current = set_locks rows s.current } in
      rw (flush-pass locked c) (rw (publish_new rt event locked c free refs) refl)

  -- If the log has one, the answer is the same and the lock is gone.
  save_lock_lost :
      logged rt event s.current ≡ true
      → logged rt event s.committed ≡ true
      → save_lock rt user project path lock rows s
        ≡ (ok (reload_lock lock s.committed.locks, true), rollback s)
  unfolding save_lock rollback
  save_lock_lost now before =
      let locked = record s { current = set_locks rows s.current } in
      let (old, found, _, _) = publish-logged rt event locked before (ground (arith, now)) in
      rw (flush-pass locked c) (rw found refl)

-- The lock that the lookup finds bars the caller.
abbrev pub bars : CurrentUser → ℕ → Option SoftLock → Bool
bars user now none = false
bars user now (some held) = held_by_other user now held

-- The log has an event of the path being locked, whoever locked it.
abbrev pub announced : Runtime → CurrentUser → ℕ → String → Db → Bool
announced rt user project path db =
    logged rt (soft_lock_acquired rt user.org_id project path user.id null) db

pub announced-logged :
    (rt : Runtime) (user : CurrentUser) (project : ℕ) (path : String) (lock : SoftLock) (db : Db)
    → logged rt (acquired_event rt user project path lock) db ≡ announced rt user project path db
unfolding acquired_event soft_lock_acquired event_row event_clash
announced-logged rt user project path lock db = refl

pub acquired-refs :
    (rt : Runtime) (user : CurrentUser) (project : ℕ) (path : String) (db : Db)
    → MayEdit user project db
    → (lock : SoftLock)
    → event_refs db (event_row rt (acquired_event rt user project path lock)) ≡ true
unfolding acquired_event soft_lock_acquired event_row
acquired-refs rt user project path db may lock =
    event_refs_of user project db (event_row rt (acquired_event rt user project path lock)) may refl
      refl

module _ (rt : Runtime) (user : CurrentUser) (project : ℕ) (path : String) (session : Option String)
    (ttl now id : ℕ) (db : Db) (may : MayEdit user project db) where
  abbrev new : SoftLock
  new = new_lock user project path session (now + seconds ttl) now id

  -- While another user holds an unexpired lock on the path, an editor who acquires it is answered
  -- that lock with `acquired = False`, and nothing changes.
  pub acquire_blocked :
      (held : SoftLock)
      → first_where (lock_at user project path) db.locks ≡ some held
      → held_by_other user now held ≡ true
      → acquire_soft_lock rt user project path session ttl now id (open_session db)
        ≡ (ok (held, false), open_session db)
  unfolding acquire_soft_lock
  acquire_blocked held f h = rw (as_editor-pass user project db _ may) (rw f (rw h refl))

  -- In a consistent database, where the path has no lock and was never announced as locked, an
  -- editor who acquires it is answered `acquired = True`; the new lock and its event are stored,
  -- and nothing else changes.
  pub acquire_first :
      consistent db ≡ true
      → first_where (lock_at user project path) db.locks ≡ none
      → announced rt user project path db ≡ false
      → acquire_soft_lock rt user project path session ttl now id (open_session db) ≡ (
        ok (reload_lock new (db.locks ++ new ∷ []), true),
        record (open_session db) {
          current =
              add_event
                (set_locks (db.locks ++ new ∷ []) db)
                (event_row rt (acquired_event rt user project path new));
        },
      )
  unfolding acquire_soft_lock
  acquire_first c f free = rw (as_editor-pass user project db _ may) (
      rw f (
        save_lock_new rt user project path new (db.locks ++ new ∷ []) (open_session db)
          (consistent-add_lock db c user project path session (now + seconds ttl) now id f)
          (announced-logged rt user project path new db ∙ free)
          (acquired-refs rt user project path db may new)))

  acquire_found_lost :
      consistent db ≡ true
      → announced rt user project path db ≡ true
      → (found : Option SoftLock) → first_where (lock_at user project path) db.locks ≡ found
      → bars user now found ≡ false
      → (lock : SoftLock) × (acquire_found rt user project path session
            (now + seconds ttl)
            now
            id
            db.locks
            found
            (open_session db)
          ≡ (ok (lock, true), open_session db))
  unfolding acquire_found rollback
  acquire_found_lost c a none f b = (
    reload_lock new db.locks,
    save_lock_lost rt user project path new (db.locks ++ new ∷ []) (open_session db)
        (consistent-add_lock db c user project path session (now + seconds ttl) now id f)
        (announced-logged rt user project path new db ∙ a)
        (announced-logged rt user project path new db ∙ a),
  )
  acquire_found_lost c a (some old) f b =
      let renewed = take_over user.id session (now + seconds ttl) now old in
      let l = announced-logged rt user project path renewed db ∙ a in
      (
        reload_lock renewed db.locks,
        rw b (
            save_lock_lost rt user project path renewed
              (update_where (λ r. r.id == old.id)
                (take_over user.id session (now + seconds ttl) now) db.locks)
              (open_session db)
              (consistent-take_over db c (λ r. r.id == old.id) user.id session (now + seconds ttl)
                now)
              l l),
      )

  -- In a consistent database whose log has an event of the path being locked, an editor who
  -- acquires the path, while no other user holds an unexpired lock on it, is answered `acquired =
  -- True`, and the database stays as it was.
  pub acquire_lost :
      consistent db ≡ true
      → announced rt user project path db ≡ true
      → bars user now (first_where (lock_at user project path) db.locks) ≡ false
      → (lock : SoftLock) × (acquire_soft_lock rt user project path session ttl now id
            (open_session db)
          ≡ (ok (lock, true), open_session db))
  unfolding acquire_soft_lock
  acquire_lost c a b =
      let (lock, e) = acquire_found_lost c a _ refl b in
      (lock, rw (as_editor-pass user project db _ may) e)
