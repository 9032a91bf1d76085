-- ===== src/Collaboration/Lock/Kept.antt =====
-- What the changes of the lock table keep of the constraints.
use hcp.Prelude.{
  ℕ, ◌≡◌, refl, String, Bool, true, Option, none, List, [], ◌∷◌, ◌++◌, arith, first_where,
  update_where,
}
use hcp.Prelude.Table.{unique, unique-snoc, unique-update_where, any_of_first_where-none}
use hcp.Auth.{CurrentUser}
use hcp.Db.{unique_rows, event_refs, SoftLock, Db, lock_clash, consistent}
use hcp.Collaboration.Lock.{lock_at, take_over, new_lock, set_locks}

module _ (db : Db) (c : consistent db ≡ true) where
  consistent-set_locks :
      (rows : List SoftLock) → unique lock_clash rows ≡ true → consistent (set_locks rows db) ≡ true
  unfolding consistent unique_rows event_refs
  consistent-set_locks rows h = ground arith

  locks-unique : unique lock_clash db.locks ≡ true
  unfolding consistent unique_rows event_refs
  locks-unique = ground arith

  pub consistent-add_lock :
      (user : CurrentUser) (project : ℕ) (path : String) (session : Option String)
      (expires now id : ℕ)
      → first_where (lock_at user project path) db.locks ≡ none
      → consistent
          (set_locks (db.locks ++ new_lock user project path session expires now id ∷ []) db)
        ≡ true
  unfolding lock_at lock_clash new_lock
  consistent-add_lock user project path session expires now id h = consistent-set_locks _ (
      ground (
        arith,
        locks-unique,
        any_of_first_where-none (lock_at user project path) db.locks h,
        unique-snoc lock_clash db.locks (new_lock user project path session expires now id),
      ))

  pub consistent-take_over :
      (q : SoftLock → Bool) (user : ℕ) (session : Option String) (expires now : ℕ)
      → consistent (set_locks (update_where q (take_over user session expires now) db.locks) db)
        ≡ true
  unfolding lock_clash take_over
  consistent-take_over q user session expires now = consistent-set_locks _ (
      ground (
        arith,
        locks-unique,
        unique-update_where lock_clash q (take_over user session expires now) (λ x y. refl)
            (λ x y. refl) db.locks,
      ))
