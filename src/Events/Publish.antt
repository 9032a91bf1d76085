-- ===== src/Events/Publish.antt =====
-- What `publish` does to the event log and to the transaction around it.
use hcp.Prelude.{
  Listed, refl, [], ◌∷◌, ◌++◌, inl, inr, ◌⊎◌, ◌≡◌, Bool, true, false, not, ◌&&◌, ◌==◌, none, some,
  List, arith, any, first_where, Option-cases,
}
use hcp.Prelude.Table.{
  first_where-Listed, any_of_first_where, any_of_first_where-none, first_where_sound, any_or,
  any-snoc,
}
use hcp.Db.{
  EventRow, Db, Session, same_event, event_clash, event_refs, consistent, rollback, open_session,
}
use hcp.Db.Consistency.{add_event, consistent-add_event}
use hcp.Action.{ok, err, integrity_error}
use hcp.Events.{Runtime, Event, event_row, existing_event, publish}

-- Some event of the log has the columns of `e` or its identifier.
abbrev pub logged : Runtime → Event → Db → Bool
logged rt e db = any (λ x. event_clash x (event_row rt e)) db.events

module _ (rt : Runtime) (e : Event) (s : Session) where
  -- In a transaction that breaks no constraint, sees no event that clashes with `e`, and has the
  -- project and the actor of `e`, `publish` appends the row of `e`, answers it with `created = True`, and changes nothing else.
  pub publish_new :
      consistent s.current ≡ true
      → logged rt e s.current ≡ false
      → event_refs s.current (event_row rt e) ≡ true
      → publish rt e s
        ≡ (ok (event_row rt e, true), record s { current = add_event s.current (event_row rt e) })
  unfolding publish
  publish_new c n refs = ground (arith, consistent-add_event s.current (event_row rt e))

  -- In a transaction that breaks a constraint or sees an event that clashes with `e`, `publish`
  -- undoes every change of the transaction.
  pub publish_rolls_back :
      (consistent s.current && not (logged rt e s.current)) ≡ false
      → (publish rt e s).1 ≡ rollback s
  unfolding publish
  publish_rolls_back h = ground (arith, consistent-add_event s.current (event_row rt e))

-- The queries of the handler find a row exactly when a row clashes, and what they find clashes.
existing_event-cases :
    (row : EventRow) (events : List EventRow)
    → (existing_event row events ≡ none) × (any (λ x. event_clash x row) events ≡ false)
      ⊎ ((old : EventRow) × (existing_event row events ≡ some old)
          × Listed old events
          × (event_clash old row ≡ true)
          × (any (λ x. event_clash x row) events ≡ true))
unfolding existing_event event_clash
existing_event-cases row events =
    elim (Option-cases (first_where (λ e. e.event_id == row.event_id) events)) [
      | inr (old, e) ↦ inr (
        old,
        ground arith,
        first_where-Listed (λ e. e.event_id == row.event_id) events old e,
        ground (arith, first_where_sound (λ e. e.event_id == row.event_id) events e),
        ground (
          arith,
          any_or (λ e. same_event e row) (λ e. e.event_id == row.event_id) events,
          any_of_first_where (λ e. e.event_id == row.event_id) events e,
        ),
      )
      | inl absent ↦ elim (Option-cases (first_where (λ e. same_event e row) events)) [
        | inr (old, e) ↦ inr (
          old,
          ground arith,
          first_where-Listed (λ e. same_event e row) events old e,
          ground (arith, first_where_sound (λ e. same_event e row) events e),
          ground (
            arith,
            any_or (λ e. same_event e row) (λ e. e.event_id == row.event_id) events,
            any_of_first_where (λ e. same_event e row) events e,
          ),
        )
        | inl missing ↦ inl (
          ground arith,
          ground (
            arith,
            any_or (λ e. same_event e row) (λ e. e.event_id == row.event_id) events,
            any_of_first_where-none (λ e. e.event_id == row.event_id) events absent,
            any_of_first_where-none (λ e. same_event e row) events missing,
          ),
        )
      ]
    ]

module _ (rt : Runtime) (e : Event) (s : Session) where
  -- If the committed log has an event that clashes with `e`, and the transaction breaks a
  -- constraint or sees an event that clashes with `e`, `publish` answers an event of the committed
  -- log that clashes with `e`, with `created = False`, and every change of the transaction is gone.
  pub publish-logged :
      logged rt e s.committed ≡ true
      → (consistent s.current && not (logged rt e s.current)) ≡ false
      → (old : EventRow) × (publish rt e s ≡ (ok (old, false), rollback s))
        × Listed old s.committed.events
        × (event_clash old (event_row rt e) ≡ true)
  unfolding publish rollback
  publish-logged l h = elim (existing_event-cases (event_row rt e) s.committed.events) [
    | inl (_, free) ↦ cc
    | inr (old, found, listed, clash, _) ↦
        (old, ground (arith, consistent-add_event s.current (event_row rt e)), listed, clash)
  ]

  -- If the committed log has no event that clashes with `e`, and the transaction breaks a
  -- constraint, sees an event that clashes with `e`, or lacks its project or actor, `publish` raises IntegrityError, and every
  -- change of the transaction is gone.
  pub publish_broken :
      logged rt e s.committed ≡ false
      → (consistent s.current
          && not (logged rt e s.current)
          && event_refs s.current (event_row rt e))
        ≡ false
      → publish rt e s ≡ (err integrity_error, rollback s)
  unfolding publish rollback
  publish_broken l h = elim (existing_event-cases (event_row rt e) s.committed.events) [
    | inl (missing, _) ↦ ground (arith, consistent-add_event s.current (event_row rt e))
    | inr (old, found, listed, clash, taken) ↦ cc
  ]

pub logged-add_event :
    (rt : Runtime) (e again : Event) (db : Db)
    → same_event (event_row rt e) (event_row rt again) ≡ true
    → logged rt again (add_event db (event_row rt e)) ≡ true
unfolding event_clash
logged-add_event rt e again db same =
    ground (arith, any-snoc (λ x. event_clash x (event_row rt again)) db.events (event_row rt e))

-- In a consistent database, which has the project and the actor of `e`, and whose log has no event
-- that clashes with `e`, publishing `e` succeeds. Once that is committed, publishing an event of the
-- same organisation, project, type and key, under whatever identifier, answers with
-- `created = False` an event that is in the log and has these columns or that identifier, and leaves
-- the database as it is.
pub publish_idempotent :
    (rt : Runtime) (e again : Event) (db : Db)
    → consistent db ≡ true
    → logged rt e db ≡ false
    → event_refs db (event_row rt e) ≡ true
    → same_event (event_row rt e) (event_row rt again) ≡ true
    → let log = db.events ++ event_row rt e ∷ [] in
      ((publish rt e (open_session db)).0 ≡ ok (event_row rt e, true))
      × ((publish rt e (open_session db)).1.current.events ≡ log)
      × ((old : EventRow) × Listed old log
          × (event_clash old (event_row rt again) ≡ true)
          × (publish rt again (open_session (publish rt e (open_session db)).1.current)
              ≡ (ok (old, false), open_session (publish rt e (open_session db)).1.current)))
unfolding rollback
publish_idempotent rt e again db c n refs same =
    let first = publish_new rt e (open_session db) c n refs in
    let taken = logged-add_event rt e again db same in
    let (old, found, listed, clash) =
      publish-logged rt again (open_session (add_event db (event_row rt e))) taken
        (ground (arith, taken)) in
    (rw first refl, rw first refl, (old, listed, clash, rw first found))
