-- ===== src/Collaboration/Presence/Kept.antt =====
-- What the changes of the presence table keep of the constraints.
use hcp.Prelude.{
  ℕ, ◌≡◌, refl, String, Bool, true, Option, none, List, [], ◌∷◌, ◌++◌, arith, first_where,
  update_where,
}
use hcp.Prelude.Table.{unique, unique-snoc, unique-update_where, any_of_first_where-none}
use hcp.Json.{Json}
use hcp.Auth.{CurrentUser}
use hcp.Db.{unique_rows, event_refs, Presence, Db, presence_clash, consistent}
use hcp.Collaboration.Presence.{presence_at, refresh, new_presence, set_presence}

module _ (db : Db) (c : consistent db ≡ true) where
  consistent-set_presence :
      (rows : List Presence)
      → unique presence_clash rows ≡ true
      → consistent (set_presence rows db) ≡ true
  unfolding consistent unique_rows event_refs
  consistent-set_presence rows h = ground arith

  presence-unique : unique presence_clash db.presence ≡ true
  unfolding consistent unique_rows event_refs
  presence-unique = ground arith

  pub consistent-add_presence :
      (user : CurrentUser) (project : ℕ) (session : String) (path domain : Option String)
      (meta : Option Json) (now id : ℕ)
      → first_where (presence_at user project session) db.presence ≡ none
      → consistent (
          set_presence
            (db.presence ++ new_presence user project session path domain meta now id ∷ [])
            db)
        ≡ true
  unfolding presence_at presence_clash new_presence
  consistent-add_presence user project session path domain meta now id h =
      consistent-set_presence _ (
        ground (
          arith,
          presence-unique,
          any_of_first_where-none (presence_at user project session) db.presence h,
          unique-snoc presence_clash db.presence
              (new_presence user project session path domain meta now id),
        ))

  pub consistent-refresh :
      (q : Presence → Bool) (path domain : Option String) (meta : Option Json) (now : ℕ)
      → consistent (set_presence (update_where q (refresh path domain meta now) db.presence) db)
        ≡ true
  unfolding presence_clash refresh
  consistent-refresh q path domain meta now = consistent-set_presence _ (
      ground (
        arith,
        presence-unique,
        unique-update_where presence_clash q (refresh path domain meta now) (λ x y. refl)
            (λ x y. refl) db.presence,
      ))
