-- ===== src/Objects/Promotion.antt =====
-- What a promotion does, and what the event log does to it.
use hcp.Prelude.{
  ◌≡◌, refl, String, true, false, Option, none, some, [], ◌∷◌, ◌++◌, arith, ◌==◌, update_where,
  Bool-cases, Option-cases, inl, inr, List, every,
}
use hcp.Prelude.Table.{unique-update_where, any-rewritten}
use hcp.Auth.{CurrentUser, role_at_least}
use hcp.Db.{
  event_refs, snapshot_refs, ObjectSnapshot, unique_rows, Version, HardwareObject, Db, Session,
  version_clash, consistent, rollback, open_session,
}
use hcp.Db.Consistency.{add_event}
use hcp.Action.{Result, ok, err, forbidden}
use hcp.Events.{Runtime, event_row}
use hcp.Events.Publish.{logged, publish_new, publish-logged}
use hcp.Objects.{
  validate_transition, get_object, move_version, transition_event, transition_audit, add_audit,
  announce_transition, reload_version, move_to_target, promote_with, promote,
}
use hcp.Objects.Runs.{Run, stay, move}

module _ (rt : Runtime) (user : CurrentUser) (version : Version) (target : String)
    (comment : Option String) where
  promote_with-Run :
      (r : Option (String × String)) (s : Session) (v : Version)
      → validate_transition version.lifecycle_state target ≡ r
      → (promote_with rt user version target r comment s).0 ≡ ok v
      → Run version.lifecycle_state (user.role ∷ []) target
  unfolding promote_with
  promote_with-Run none s v e h = cc
  promote_with-Run (some (min_role, event)) s v e h =
      elim (Bool-cases (role_at_least user.role min_role)) [
        | inl good ↦ move stay e good
        | inr bad ↦ let h' : ◌≡◌ {A = Result Version} (err forbidden) (ok v) = rw bad at h in cc h'
      ]

  -- If promoting a version to a state answers a version, the two states are an accepted transition,
  -- and the user has the role that it asks for.
  pub promote-Run :
      (s : Session) (v : Version)
      → (promote rt user version target comment s).0 ≡ ok v
      → Run version.lifecycle_state (user.role ∷ []) target
  unfolding promote
  promote-Run s v h =
      promote_with-Run (validate_transition version.lifecycle_state target) s v refl h

  module _ (db : Db) (c : consistent db ≡ true) (min_role event : String)
      (valid : validate_transition version.lifecycle_state target ≡ some (min_role, event))
      (allowed : role_at_least user.role min_role ≡ true) (hw : HardwareObject)
      (there : get_object version.object_id user.org_id db ≡ some hw) where
    abbrev moved : Session
    moved = record (open_session db) {
      current = record db {
        versions =
            update_where (λ v. v.id == version.id) (λ v. record v { lifecycle_state = target })
              db.versions;
        audit_log = db.audit_log ++ transition_audit rt user version target comment ∷ [];
      };
    }

    moved-refs :
        (rows : List ObjectSnapshot)
        → every (snapshot_refs db.objects moved.current.versions) rows
          ≡ every (snapshot_refs db.objects db.versions) rows
    unfolding every snapshot_refs
    moved-refs [] = refl
    moved-refs (r ∷ rows) = elim (Option-cases r.version_id) [
      | inl no_version ↦ rw (no_version, moved-refs rows) refl
      | inr (id, e) ↦
          rw
            (
              e,
              any-rewritten (λ v. v.id == id) (λ v. v.id == version.id)
                  (λ v. record v { lifecycle_state = target }) db.versions (λ y. refl),
              moved-refs rows,
            )
            refl
    ]

    moved-consistent : consistent moved.current ≡ true
    unfolding consistent unique_rows event_refs version_clash
    moved-consistent = ground (
      arith,
      c,
      moved-refs db.snapshots,
      unique-update_where version_clash (λ v. v.id == version.id)
          (λ v. record v { lifecycle_state = target }) (λ x y. refl) (λ x y. refl) db.versions,
    )

    moved-object : get_object version.object_id user.org_id moved.current ≡ some hw
    unfolding get_object
    moved-object = there

    asked :
        promote rt user version target comment (open_session db)
        ≡ move_to_target rt user version target comment (open_session db)
    unfolding promote promote_with
    asked = rw valid (rw allowed refl)

    -- In a consistent database a user with the role that a transition asks for promotes a version
    -- of an object that is there. If the log has no event that clashes with that of the transition,
    -- and the project of the object and the user are there, the row of the version gets the state, the audit log and the event log get an entry each, and
    -- nothing else changes.
    pub promote_moves :
        logged rt (transition_event rt user version target hw) db ≡ false
        → event_refs db (event_row rt (transition_event rt user version target hw)) ≡ true
        → (promote rt user version target comment (open_session db)).1.current
          ≡ add_event moved.current (event_row rt (transition_event rt user version target hw))
    unfolding move_to_target move_version add_audit announce_transition event_refs
    promote_moves fresh refs = rw asked (
        rw moved-object (
          rw
            (publish_new rt (transition_event rt user version target hw) moved moved-consistent
              fresh refs)
            refl))

    -- In a consistent database a user with the role that a transition asks for promotes a version
    -- of an object that is there. If the log has the event of this version making this transition,
    -- as when a version is submitted again after it was rejected, the promotion answers a version,
    -- and the database stays as it was.
    pub promote_lost :
        logged rt (transition_event rt user version target hw) db ≡ true
        → (v : Version) × (promote rt user version target comment (open_session db)
            ≡ (ok v, open_session db))
    unfolding move_to_target move_version add_audit announce_transition rollback
    promote_lost taken =
        let (_, found, _, _) =
          publish-logged rt (transition_event rt user version target hw) moved taken
            (ground (arith, taken)) in
        (
          reload_version (record version { lifecycle_state = target }) db.versions,
          rw asked (rw moved-object (rw found refl)),
        )
