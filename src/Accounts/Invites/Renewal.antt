-- ===== src/Accounts/Invites/Renewal.antt =====
-- A second invitation of api/app/services/org_invites.py to the same address.
use hcp.Prelude.{
  ℕ, String, ◌≡◌, refl, ◌∙◌, Bool, true, false, ◌&&◌, List, [], ◌∷◌, ◌++◌, arith, ◌==◌, str_eq, any,
}
use hcp.Prelude.Table.{unique, unique-snoc, any_or}
use hcp.Text.{strip, lower, member}
use hcp.Auth.{CurrentUser, can_admin}
use hcp.Accounts.{
  OrgInvite, AccountDb, Session, Action, err, bind, pure, Crypto, consistent, commit, invite_clash,
  integrity_error,
}
use hcp.Accounts.Tokens.{Lifetimes}
use hcp.Accounts.Invites.{
  Fresh, valid_roles, normal_email, still_pending, member_of, new_invite, create_invite,
}

-- an invitation to the organization for that address, whatever has become of it
abbrev pub invited : ℕ → String → OrgInvite → Bool
invited org_id email i = i.org_id == org_id && str_eq i.email email

abbrev with_invite : AccountDb → OrgInvite → AccountDb
with_invite db invite = record db { invites = db.invites ++ (invite ∷ []) }

any_clash :
    (xs : List OrgInvite) (x : OrgInvite)
    → any (invited x.org_id x.email) xs ≡ true
    → any (λ y. invite_clash y x) xs ≡ true
unfolding invite_clash
any_clash xs x h =
    any_or (invited x.org_id x.email) (λ y. str_eq y.token_hash x.token_hash) xs ∙ rw h refl

inconsistent :
    (db : AccountDb) (x : OrgInvite)
    → any (invited x.org_id x.email) db.invites ≡ true
    → consistent (with_invite db x) ≡ false
unfolding consistent
inconsistent db x h =
    let clash : unique invite_clash (db.invites ++ (x ∷ [])) ≡ false =
      unique-snoc invite_clash db.invites x ∙ rw (any_clash db.invites x h) (ground arith) in
    rw clash (ground arith)

refused :
    {B : Type 0} (s : Session) (f : Unit {0} → Action B)
    → consistent s.current ≡ false
    → (bind (commit s) f).0 ≡ err integrity_error
unfolding commit
refused s f h = rw h refl

-- Where an address has an invitation to the organization that has expired or has been accepted, and no
-- active member of that address, an administrator's new invitation in a valid role is refused by the
-- database: the unique constraint knows no expiry.
pub create_invite_again :
    (crypto : Crypto) (lifetimes : Lifetimes) (fresh : Fresh) (now : ℕ) (user : CurrentUser)
    (email role : String) (s : Session)
    → can_admin user.role ≡ true
    → member (lower (strip role)) valid_roles ≡ true
    → still_pending user.org_id (normal_email email) now s.current.invites ≡ false
    → any (member_of user.org_id (normal_email email)) s.current.users ≡ false
    → any (invited user.org_id (normal_email email)) s.current.invites ≡ true
    → (create_invite crypto lifetimes fresh now user email role s).0 ≡ err integrity_error
unfolding create_invite new_invite
create_invite_again crypto lifetimes fresh now user email role s admin valid expired stranger
      before =
    let invite =
      new_invite crypto lifetimes fresh now user (normal_email email) (lower (strip role)) in
    rw (admin, valid, expired, stranger, create_invite)
      (refused (record s { current = with_invite s.current invite }) (λ _. pure invite)
        (inconsistent s.current invite before))
