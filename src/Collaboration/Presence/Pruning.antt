-- ===== src/Collaboration/Presence/Pruning.antt =====
-- Pruning removes what nobody sees.
use hcp.Prelude.{
  ℕ, ◌+◌, ◌≡◌, refl, sym, ◌∙◌, ap, Bool, true, not, ◌&&◌, ◌||◌, List, [], ◌∷◌, arith, ◌==◌, select,
  sort_by, length, some, first_where,
}
use hcp.Prelude.Table.{select_both}
use hcp.Prelude.Sorting.{select-sort_by}
use hcp.Auth.{CurrentUser}
use hcp.Db.{Project, Presence, Db, open_session}
use hcp.Action.{ok}
use hcp.Access.{require_project}
use hcp.Collaboration.Presence.{
  presence_of, set_presence, newest_first, is_present, is_stale, list_presence,
  prune_stale_presence,
}

newest_first_trans :
    (a b c : Presence) → newest_first a b ≡ true → newest_first b c ≡ true → newest_first a c ≡ true
unfolding newest_first
newest_first_trans a b c p q = ground arith

newest_first_total : (a b : Presence) → (newest_first a b || newest_first b a) ≡ true
unfolding newest_first
newest_first_total a b = ground arith

module _ (now org project : ℕ) where
  abbrev live : Presence → Bool
  live r = presence_of org project r && is_present now r

  abbrev kept : Presence → Bool
  kept r = not (is_stale now org project r)

  -- What is listed depends only on the rows that pruning keeps.
  live-kept : (r : Presence) → (kept r && live r) ≡ live r
  unfolding is_stale is_present
  live-kept r = ground arith

  listed :
      (rows : List Presence)
      → select (is_present now) (sort_by newest_first (select (presence_of org project) rows))
        ≡ sort_by newest_first (select live rows)
  listed rows =
      select-sort_by newest_first newest_first_trans newest_first_total (is_present now)
        (select (presence_of org project) rows)
      ∙ ap (sort_by newest_first)
          (select_both (presence_of org project) (is_present now) live rows (λ r. refl))

  listed_after :
      (rows : List Presence)
      → select
          (is_present now)
          (sort_by newest_first (select (presence_of org project) (select kept rows)))
        ≡ select (is_present now) (sort_by newest_first (select (presence_of org project) rows))
  listed_after rows =
      listed (select kept rows)
      ∙ ap (sort_by newest_first) (select_both kept live live rows live-kept)
      ∙ sym (listed rows)

  length-split :
      (rows : List Presence)
      → length rows ≡ length (select kept rows) + length (select (is_stale now org project) rows)
  unfolding select
  length-split [] = omega arith
  length-split (r ∷ rows) = ground (arith, length-split rows)

module _ (user : CurrentUser) (project now : ℕ) (db : Db) (p : Project)
    (found : first_where (λ q. q.id == project && (q.org_id == user.org_id)) db.projects
      ≡ some p) where
  -- In a project of the caller's organisation, `list_presence` answers the same rows in the same
  -- order before and after `prune_stale_presence` at the same instant.
  pub list-prune :
      (list_presence user project now (prune_stale_presence user project now (open_session db)).1).0
      ≡ (list_presence user project now (open_session db)).0
  unfolding list_presence prune_stale_presence require_project
  list-prune = rw found (rw found (ap ok (listed_after now user.org_id project db.presence)))

  -- In a project of the caller's organisation, the count that `prune_stale_presence` answers is the
  -- number of rows that it removed, and it changes no other table.
  pub prune_counts :
      (n : ℕ) × ((prune_stale_presence user project now (open_session db)).0 ≡ ok n)
      × (length db.presence
          ≡ length (prune_stale_presence user project now (open_session db)).1.current.presence + n)
      × ((prune_stale_presence user project now (open_session db)).1.current
          ≡ set_presence
              (prune_stale_presence user project now (open_session db)).1.current.presence
              db)
  unfolding prune_stale_presence require_project
  prune_counts = (
    length (select (is_stale now user.org_id project) db.presence),
    rw found,
    rw found (length-split now user.org_id project db.presence),
    rw found,
  )
