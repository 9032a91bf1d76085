-- ===== src/Examples/Locks.antt =====
-- Soft locks, at concrete users and times.
use hcp.Prelude.{
  ◌≡◌, ◌≢◌, ◌∙◌, ◌<◌, ◌+◌, refl, ap, ℕ, Bool, true, false, not, ◌&&◌, ◌||◌, String, Option, none,
  some, List, [], ◌∷◌, ◌++◌, any, str_eq, ◌==◌, first_where, arith,
}
use hcp.Prelude.Table.{unique}
use hcp.Auth.{role_at_least}
use hcp.Json.{null}
use hcp.Db.{SoftLock, Db, consistent, open_session}
use hcp.Db.Consistency.{add_event}
use hcp.Action.{Result, ok, err}
use hcp.Events.{Event, event_row, soft_lock_acquired}
use hcp.Access.{MayEdit}
use hcp.Collaboration.Lock.{
  lock_at, lock_by_id, release_found, drop_lock, new_lock, set_locks, acquire_soft_lock,
  release_soft_lock,
}
use hcp.Collaboration.Lock.Holding.{announced}
use hcp.Collaboration.Lock.Sequences.{locked, acquire_exclusive, renewal_lost}
use hcp.Collaboration.Lock.Release.{release_allowed}
use hcp.Examples.{runtime, alice, bob, start, may_alice, may_bob}

abbrev alices : SoftLock
alices = new_lock alice 1 "board/u1" none 300000000 0 9

abbrev held : Db
held = set_locks (alices ∷ []) start

held_alice : MayEdit alice 1 held
unfolding role_at_least first_where any
held_alice = record {
  editor = refl;
  project = record { id = 1; org_id = 1 };
  found = refl;
  known = refl;
}

held_bob : MayEdit bob 1 held
unfolding role_at_least first_where any
held_bob = record {
  editor = refl;
  project = record { id = 1; org_id = 1 };
  found = refl;
  known = refl;
}

start_consistent : consistent start ≡ true
unfolding consistent hcp.Db.unique_rows hcp.Db.event_refs hcp.Db.parent_refs hcp.Db.identity_ref
    hcp.Db.snapshot_refs hcp.Prelude.every unique
start_consistent = refl

start_free : first_where (lock_at alice 1 "board/u1") start.locks ≡ none
unfolding first_where
start_free = refl

start_fresh : announced runtime alice 1 "board/u1" start ≡ false
unfolding any
start_fresh = refl

-- The log says that the path was locked, and nobody holds it.
abbrev past : Db
past = add_event start (event_row runtime (soft_lock_acquired runtime 1 1 "board/u1" 2 null))

past_alice : MayEdit alice 1 past
unfolding role_at_least first_where any
past_alice = record {
  editor = refl;
  project = record { id = 1; org_id = 1 };
  found = refl;
  known = refl;
}

acquire_exclusive_example :
    acquire_soft_lock runtime bob 1 "board/u1" none 60 5000000 10 (
      open_session (
        locked runtime alice 1 "board/u1" none 300 0 9 start may_alice start_consistent start_free
          start_fresh))
    ≡ (
      ok (alices, false),
      open_session (
          locked runtime alice 1 "board/u1" none 300 0 9 start may_alice start_consistent start_free
            start_fresh),
    )
unfolding consistent hcp.Db.unique_rows hcp.Db.event_refs hcp.Db.parent_refs hcp.Db.identity_ref
    hcp.Db.snapshot_refs hcp.Prelude.every first_where
acquire_exclusive_example =
    acquire_exclusive runtime alice 1 "board/u1" none 300 0 9 start may_alice start_consistent
      start_free start_fresh bob none 60 5000000 10 may_bob refl (omega arith) (omega arith)

renewal_lost_example :
    (lock : SoftLock) × (acquire_soft_lock runtime alice 1 "board/u1" none 300 200000000 10 (
        open_session (
          locked runtime alice 1 "board/u1" none 300 0 9 start may_alice start_consistent start_free
            start_fresh))
      ≡ (
        ok (lock, true),
        open_session (
            locked runtime alice 1 "board/u1" none 300 0 9 start may_alice start_consistent
              start_free start_fresh),
      ))
    × (first_where
          (lock_at alice 1 "board/u1")
          (locked runtime alice 1 "board/u1" none 300 0 9 start may_alice start_consistent
            start_free start_fresh).locks
        ≡ some alices)
unfolding consistent hcp.Db.unique_rows hcp.Db.event_refs hcp.Db.parent_refs hcp.Db.identity_ref
    hcp.Db.snapshot_refs hcp.Prelude.every first_where
renewal_lost_example =
    renewal_lost runtime alice 1 "board/u1" none 300 0 9 start may_alice start_consistent start_free
      start_fresh none 300 200000000 10

release_allowed_example :
    ((alices.holder_user_id == bob.id || role_at_least bob.role "admin") ≡ true)
    × (alices.id ≡ 9)
    × (alices.org_id ≡ bob.org_id)
    × (alices.project_id ≡ 1)
unfolding release_soft_lock release_found drop_lock first_where role_at_least lock_by_id new_lock
    hcp.Action.flush consistent unique hcp.Prelude.select hcp.Events.publish hcp.Prelude.every
    event_row hcp.Events.soft_lock_released
release_allowed_example = release_allowed runtime bob 1 9 held alices held_bob refl
