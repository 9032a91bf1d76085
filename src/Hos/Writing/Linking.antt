-- ===== src/Hos/Writing/Linking.antt =====
-- What linking a new commit leaves in the history.
use hcp.Prelude.{
  Bool, map, Bool-cases, inl, inr, not, ◌&&◌, ℕ, ◌≡◌, refl, ◌∙◌, String, true, false, Option, some,
  List, [], ◌++◌, arith, ◌==◌, select, update_where,
}
use hcp.Prelude.Table.{unique}
use hcp.Auth.{CurrentUser}
use hcp.Db.{Db, Session, consistent, unique_rows, event_refs, rollback}
use hcp.Db.Consistency.{add_event}
use hcp.Action.{Result, ok, err, integrity_error}
use hcp.Events.{Runtime, Event, event_row}
use hcp.Events.Publish.{logged, publish_new, publish_broken}
use hcp.Hnf.{Validation}
use hcp.Hos.Lca.{parent_ids}
use hcp.Hos.Commits.{write_audit}
use hcp.Hos.Writing.{parent_rows, set_head, commit_event, link_metadata, link_commit}
use hcp.Hos.Writing.Parents.{parent_ids-parent_rows, numbered, numbered_rows, unique-repeated}

-- The rows that are new when the event is published.
abbrev pub linked : ℕ → (commit_id branch_id : ℕ) → List ℕ → Db → Db
linked org commit_id branch_id parents db =
    set_head branch_id commit_id
      (record db { parents = db.parents ++ parent_rows org commit_id parents 0 })

module _ (rt : Runtime) (v : Validation) (user : CurrentUser) (project commit_id branch_id : ℕ)
    (root_ref : Option String) (s : Session) where
  abbrev event : Event
  event = commit_event rt v user project commit_id branch_id root_ref

  -- The transaction when the event is published.
  abbrev audited : List ℕ → Session
  audited parents =
      (write_audit user project "commit" commit_id "commit_created"
        (link_metadata rt v user project branch_id parents root_ref)
        (record s { current = linked user.org_id commit_id branch_id parents s.current })).1

  audited-consistent :
      (parents : List ℕ)
      → consistent (audited parents).current
        ≡ consistent (linked user.org_id commit_id branch_id parents s.current)
  unfolding consistent unique_rows event_refs write_audit set_head
  audited-consistent parents = refl

  audited-logged :
      (parents : List ℕ) → logged rt event (audited parents).current ≡ logged rt event s.current
  unfolding write_audit set_head
  audited-logged parents = refl

  link_commit-new :
      (parents : List ℕ)
      → consistent (linked user.org_id commit_id branch_id parents s.current) ≡ true
      → logged rt event s.current ≡ false
      → event_refs s.current (event_row rt event) ≡ true
      → link_commit rt v user project commit_id branch_id parents root_ref s ≡ (
        ok tt,
        record (audited parents) {
          current = add_event (audited parents).current (event_row rt event);
        },
      )
  unfolding link_commit write_audit event_refs set_head
  link_commit-new parents c n refs =
      rw
        (publish_new rt event (audited parents) (audited-consistent parents ∙ c)
          (audited-logged parents ∙ n) refs)
        refl

  -- Linking a commit that has no parents yet, in a transaction that breaks no constraint with the
  -- new rows, sees no event of the commit, and has the project and the user, succeeds. The commit is
  -- then the head of its branch, the other branches are as they were, and so are the commits. Its
  -- rows of parents are numbered 0, 1, 2 and so on, so that their order is not left open, and
  -- `_parent_ids` reads the parents as they were given.
  pub link_commit-history :
      (parents : List ℕ)
      → consistent (linked user.org_id commit_id branch_id parents s.current) ≡ true
      → logged rt event s.current ≡ false
      → event_refs s.current (event_row rt event) ≡ true
      → select (λ r. r.commit_id == commit_id) s.current.parents ≡ []
      → let after = link_commit rt v user project commit_id branch_id parents root_ref s in
        (after.0 ≡ ok tt)
        × (map
              (λ r. r.parent_order)
              (select (λ r. r.commit_id == commit_id) after.1.current.parents)
            ≡ numbered 0 parents)
        × (parent_ids after.1.current.parents commit_id ≡ parents)
        × (after.1.current.commits ≡ s.current.commits)
        × (after.1.current.branches
            ≡ update_where
                (λ b. b.id == branch_id)
                (λ b. record b { head_commit_id = some commit_id })
                s.current.branches)
  unfolding write_audit set_head
  link_commit-history parents c n refs free = rw (link_commit-new parents c n refs) (
    refl,
    numbered_rows user.org_id commit_id s.current.parents parents free,
    parent_ids-parent_rows user.org_id commit_id s.current.parents parents free,
    refl,
    refl,
  )

  audited-refs :
      (parents : List ℕ)
      → event_refs (audited parents).current (event_row rt event)
        ≡ event_refs s.current (event_row rt event)
  unfolding event_refs write_audit set_head
  audited-refs parents = refl

  abbrev accepted : List ℕ → Bool
  accepted parents =
      consistent (linked user.org_id commit_id branch_id parents s.current)
      && not (logged rt event s.current)
      && event_refs s.current (event_row rt event)

  audited-broken :
      (parents : List ℕ)
      → accepted parents ≡ false
      → (consistent (audited parents).current
          && not (logged rt event (audited parents).current)
          && event_refs (audited parents).current (event_row rt event))
        ≡ false
  audited-broken parents bad =
      rw (audited-consistent parents, audited-logged parents, audited-refs parents) bad

  -- Linking that answers has broken no constraint and met no event of its own.
  pub link_commit-ok :
      (parents : List ℕ)
      → logged rt event s.committed ≡ false
      → (link_commit rt v user project commit_id branch_id parents root_ref s).0 ≡ ok tt
      → accepted parents ≡ true
  unfolding link_commit write_audit
  link_commit-ok parents n h = elim (Bool-cases (accepted parents)) [
    | inl good ↦ good
    | inr bad ↦
        let h' : ◌≡◌ {A = Result (Unit {0})} (err integrity_error) (ok tt) =
          rw (publish_broken rt event (audited parents) n (audited-broken parents bad)) at h in
        cc h'
  ]

  linked-repeated :
      (parents : List ℕ)
      → unique ◌==◌ parents ≡ false
      → consistent (linked user.org_id commit_id branch_id parents s.current) ≡ false
  unfolding consistent unique_rows set_head
  linked-repeated parents twice =
      ground (arith, unique-repeated user.org_id commit_id s.current.parents parents twice)

  -- A commit that names a parent twice cannot be linked.
  pub link_commit-repeated :
      (parents : List ℕ)
      → unique ◌==◌ parents ≡ false
      → logged rt event s.committed ≡ false
      → link_commit rt v user project commit_id branch_id parents root_ref s
        ≡ (err integrity_error, rollback s)
  unfolding link_commit write_audit rollback
  link_commit-repeated parents twice n =
      rw
        (publish_broken rt event (audited parents) n
          (audited-broken parents (ground (arith, linked-repeated parents twice))))
        refl
