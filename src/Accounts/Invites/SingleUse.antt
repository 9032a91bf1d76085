-- ===== src/Accounts/Invites/SingleUse.antt =====
-- An invitation of api/app/services/org_invites.py is accepted once.
use hcp.Prelude.{
  ℕ, String, ◌≡◌, refl, sym, arith, ◌∙◌, ap, Option, none, some, ltb, eq_refl, first_where,
  update_where, Bool-cases, Option-cases, inl, inr,
}
use hcp.Prelude.Table.{first_where-update_where}
use hcp.Text.{strip}
use hcp.Accounts.{
  User, OrgInvite, Session, Result, ok, err, Action, Crypto, bind-eq, flush, commit,
  invite_already_used, invalid_token,
}
use hcp.Accounts.Tokens.{Lifetimes, create_refresh_token}
use hcp.Accounts.Invites.{
  Fresh, SignedIn, with_token, is_pending, other_email, check_invite, accepting_user, mark_accepted,
  accept_found, accept_invite, user_by_email, sign_in, take_existing, take_new,
}

-- A step that leaves the invitations as they are.
abbrev Keeps : {A : Type 0} → Action A → Type 0
Keeps m = (s : Session) → (m s).1.current.invites ≡ s.current.invites

module _ (crypto : Crypto) (lifetimes : Lifetimes) (fresh : Fresh) (now : ℕ) where
  check_invite-Keeps :
      (email : Option String) (invite : OrgInvite)
      → Keeps (check_invite crypto lifetimes fresh now email invite)
  unfolding check_invite
  check_invite-Keeps email invite s = elim (Bool-cases (is_pending invite)) [
    | inr e ↦ rw (e, check_invite) refl
    | inl e ↦ elim (Bool-cases (ltb invite.expires_at now)) [
      | inl k ↦ rw (e, k, check_invite) refl
      | inr k ↦ elim (Bool-cases (other_email crypto lifetimes fresh now email invite)) [
        | inl x ↦ rw (e, k, x, check_invite) refl
        | inr x ↦ rw (e, k, x, check_invite) refl
      ]
    ]
  ]

  take_new-Keeps :
      (invite : OrgInvite) (name password : String)
      → Keeps (take_new crypto lifetimes fresh now invite name password)
  unfolding take_new flush
  take_new-Keeps invite name password s = ground arith

  take_existing-Keeps :
      (invite : OrgInvite) (name password : String) (existing : User)
      → Keeps (take_existing crypto lifetimes fresh now invite name password existing)
  unfolding take_existing
  take_existing-Keeps invite name password existing s = ground arith

  accepting_user-Keeps :
      (invite : OrgInvite) (name password : String) (o : Option User)
      → Keeps (accepting_user crypto lifetimes fresh now invite name password o)
  unfolding accepting_user
  accepting_user-Keeps invite name password none = take_new-Keeps invite name password
  accepting_user-Keeps invite name password (some existing) =
      take_existing-Keeps invite name password existing

  sign_in-Keeps : (user : User) → Keeps (sign_in crypto lifetimes fresh now user)
  unfolding sign_in create_refresh_token flush commit
  sign_in-Keeps user s = ground arith

  abbrev marked : User → OrgInvite → OrgInvite
  marked user i = record i { accepted_at = some now; accepted_user_id = some user.id }

  -- What an acceptance leaves of the invitations.
  accept_found_marks :
      (name password : String) (email : Option String) (invite : OrgInvite) (r : SignedIn)
      (s t : Session)
      → accept_found crypto lifetimes fresh now name password email invite s ≡ (ok r, t)
      → (user : User) × (t.current.invites
          ≡ update_where (with_token invite.token_hash) (marked user) s.current.invites)
  unfolding accept_found mark_accepted
  accept_found_marks name password email invite r s t h =
      let (_, s1, checked, h1) =
        bind-eq (check_invite crypto lifetimes fresh now email invite s) _ h in
      let (user, s2, taken, h2) =
        bind-eq
          (accepting_user crypto lifetimes fresh now invite name password
            (user_by_email invite.email s1.current.users) s1)
          _ h1 in
      let kept1 : s1.current.invites ≡ s.current.invites =
        sym (ap (λ (q : Result (Unit {0}) × Session). q.1.current.invites) checked)
        ∙ check_invite-Keeps email invite s in
      let kept2 : s2.current.invites ≡ s1.current.invites =
        sym (ap (λ (q : Result User × Session). q.1.current.invites) taken)
        ∙ accepting_user-Keeps invite name password (user_by_email invite.email s1.current.users)
            s1 in
      let after = (mark_accepted crypto lifetimes fresh now invite user s2).1 in
      let signed =
        sym (ap (λ (q : Result SignedIn × Session). q.1.current.invites) h2)
        ∙ sign_in-Keeps user after in
      (
        user,
        signed ∙ ap (update_where (with_token invite.token_hash) (marked user)) (kept2 ∙ kept1),
      )

used_again :
    (crypto : Crypto) (lifetimes : Lifetimes) (fresh : Fresh) (now at_ : ℕ) (name password : String)
    (email : Option String) (invite : OrgInvite) (t : Session)
    → invite.accepted_at ≡ some at_
    → accept_found crypto lifetimes fresh now name password email invite t
      ≡ (err invite_already_used, t)
unfolding accept_found check_invite
used_again crypto lifetimes fresh now at_ name password email invite t h = rw h refl

-- A token that has been accepted is refused from then on: whoever presents it next, at whatever time
-- and with whatever name, password and email, is told that it has been used, and changes nothing.
pub accept_invite_once :
    (crypto : Crypto) (lifetimes : Lifetimes) (fresh later : Fresh) (now then_ : ℕ)
    (token name password other secret : String) (email claimed : Option String) (r : SignedIn)
    (s t : Session)
    → accept_invite crypto lifetimes fresh now token name password email s ≡ (ok r, t)
    → accept_invite crypto lifetimes later then_ token other secret claimed t
      ≡ (err invite_already_used, t)
unfolding accept_invite with_token
accept_invite_once crypto lifetimes fresh later now then_ token name password other secret email
      claimed r s t h =
    let hash = crypto.sha256 (strip token) in
    elim (Option-cases (first_where (with_token hash) s.current.invites)) [
      | inl missing ↦
          let k : ◌≡◌ {A = Result SignedIn × Session} (err invalid_token, s) (ok r, t) =
            rw missing at h in
          absurd (cc k)
      | inr (invite, found) ↦
          let k : accept_found crypto lifetimes fresh now name password email invite s ≡ (ok r, t) =
            rw found at h in
          let (user, invites) =
            accept_found_marks crypto lifetimes fresh now name password email invite r s t k in
          let mark = marked crypto lifetimes fresh now user in
          let again : first_where (with_token hash) t.current.invites ≡ some (mark invite) =
            ap (first_where (with_token hash)) invites
            ∙ first_where-update_where (with_token hash) (with_token invite.token_hash) mark
                s.current.invites (λ i. refl) found
            ∙ rw (eq_refl invite.token_hash) refl in
          rw again
            (used_again crypto lifetimes later then_ now other secret claimed (mark invite) t refl)
    ]
