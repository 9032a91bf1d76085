-- ===== src/Accounts/Invites.antt =====
-- api/app/services/org_invites.py: organizations, and the invitations to them.
pub mod SingleUse
pub mod Renewal
use Prim.Native.Char.{Char, code}
use hcp.Prelude.{
  ℕ, ◌+◌, ◌*◌, String, Bool, true, false, not, ◌&&◌, ◌||◌, Option, none, some, List, [], ◌∷◌, ◌++◌,
  ◌==◌, ltb, leb, str_eq, any, first_where, update_where, if◌then◌else◌,
}
use hcp.Text.{strip, lower, member, append}
use hcp.Auth.{CurrentUser, can_admin}
use hcp.Accounts.{
  Org, User, OrgInvite, AccountDb, Session, Error, Result, ok, err, Action, Crypto, pure, raise,
  bind, ◌>>=◌, ◌>>◌, gets, modify, guard, flush, commit, slug_taken, email_in_use, forbidden,
  invalid_role, invite_pending, already_member, invalid_token, invite_already_used, invite_expired,
  email_mismatch,
}
use hcp.Accounts.Tokens.{second, Lifetimes, create_access_token, create_refresh_token}

abbrev pub invite_ttl_days : ℕ
invite_ttl_days = 7

abbrev pub valid_roles : List String
valid_roles = "viewer" ∷ "editor" ∷ "approver" ∷ "admin" ∷ []

unfoldable pub normal_email : String → String
normal_email email = lower (strip email)

is_alnum : Char → Bool
is_alnum c = (leb b'a' (code c) && leb (code c) b'z') || (leb b'0' (code c) && leb (code c) b'9')

-- re.sub(r"[^a-z0-9]+", "-", text)
dashed : Bool → String → String
unfolding is_alnum
dashed inside String.[] = String.[]
dashed inside (String.◌∷◌ c s) =
    let kept = String.◌∷◌ c (dashed false s) in
    let run = dashed true s in if is_alnum c then kept else if inside then run else append "-" run

drop_dash : String → String
drop_dash String.[] = String.[]
drop_dash (String.◌∷◌ c s) = if code c == b'-' then s else String.◌∷◌ c s

drop_last_dash : String → String
drop_last_dash String.[] = String.[]
drop_last_dash (String.◌∷◌ c String.[]) = if code c == b'-' then "" else String.◌∷◌ c String.[]
drop_last_dash (String.◌∷◌ c (String.◌∷◌ d s)) = String.◌∷◌ c (drop_last_dash (String.◌∷◌ d s))

-- `fallback` is the name made of a fresh identifier. Runs are one dash, so one is taken off each end.
unfoldable pub slugify : String → String → String
unfolding dashed drop_dash drop_last_dash
slugify value fallback =
    let slug = drop_last_dash (drop_dash (dashed false (lower (strip value)))) in
    if str_eq slug "" then fallback else slug

-- The identifiers and secrets that are made afresh.
pub record Fresh : Type 0 where
  pub org_id : ℕ
  pub user_id : ℕ
  pub invite_id : ℕ
  pub slug : String
  pub token : String
  pub refresh : String

unfoldable pub user_by_email : String → List User → Option User
user_by_email email users = first_where (λ (u : User). str_eq u.email email) users

-- What registering and accepting answer.
pub record SignedIn : Type 0 where
  pub user : User
  pub access_token : String
  pub refresh_token : String
  pub expires_in : ℕ

given_slug : Option String → String → String
given_slug none name = name
given_slug (some s) name = if str_eq s "" then name else s

unfoldable pub is_absent : {A : Type 0} → Option A → Bool
is_absent none = true
is_absent (some _) = false

unfoldable pub is_pending : OrgInvite → Bool
is_pending i = is_absent i.accepted_at

unfoldable pub pending_for : ℕ → String → OrgInvite → Bool
unfolding is_pending is_absent
pending_for org_id email i = i.org_id == org_id && (str_eq i.email email && is_pending i)

unfoldable pub member_of : ℕ → String → User → Bool
member_of org_id email u = u.org_id == org_id && (str_eq u.email email && u.is_active)

-- an open invitation that has not expired
unfoldable pub still_pending : ℕ → String → ℕ → List OrgInvite → Bool
still_pending org_id email now invites = elim (first_where (pending_for org_id email) invites) [
  | none ↦ false
  | some i ↦ ltb now i.expires_at
]

unfoldable pub with_token : String → OrgInvite → Bool
with_token hash i = str_eq i.token_hash hash

module _ (crypto : Crypto) (lifetimes : Lifetimes) (fresh : Fresh) (now : ℕ) where
  unfoldable pub sign_in : User → Action SignedIn
  sign_in user = do
    refresh ← create_refresh_token crypto lifetimes fresh.refresh now user.id
    commit
    pure (record {
      user = user;
      access_token = create_access_token crypto lifetimes user now;
      refresh_token = refresh;
      expires_in = lifetimes.access_minutes * 60;
    })

  add_org : String → String → String → Action (Unit {0})
  add_org name slug plan = do
    modify λ (db : AccountDb). record db {
      orgs =
          db.orgs
          ++ (record { id = fresh.org_id; name = strip name; slug = slug; plan = plan } ∷ []);
    }
    flush

  unfoldable pub new_user : ℕ → String → String → String → String → User
  new_user org_id email name password role = record {
    id = fresh.user_id;
    org_id = org_id;
    email = email;
    name = strip name;
    password_hash = some (crypto.hash_password password);
    role = role;
    is_active = true;
  }

  add_user : User → Action (Unit {0})
  add_user user = do modify λ (db : AccountDb). record db { users = db.users ++ (user ∷ []) }; flush

  unfoldable pub register_org :
      String → String → String → String → String → Option String → Action SignedIn
  unfolding sign_in add_org add_user given_slug is_absent
  register_org org_name admin_email admin_name admin_password plan slug =
      let email = normal_email admin_email in
      let org_slug = slugify (given_slug slug org_name) fresh.slug in
      let user = new_user fresh.org_id email admin_name admin_password "admin" in
      do
        org ← gets λ (db : AccountDb). first_where (λ (o : Org). str_eq o.slug org_slug) db.orgs
        guard (is_absent org) slug_taken
        existing ← gets λ (db : AccountDb). user_by_email email db.users
        guard (is_absent existing) email_in_use
        add_org org_name org_slug plan
        add_user user
        sign_in user

  unfoldable pub new_invite : CurrentUser → String → String → OrgInvite
  new_invite user email role = record {
    id = fresh.invite_id;
    org_id = user.org_id;
    email = email;
    role = role;
    token_hash = crypto.sha256 fresh.token;
    invited_by = user.id;
    expires_at = now + invite_ttl_days * 86400 * second;
    accepted_at = none;
    accepted_user_id = none;
  }

  -- the invitation; its token is `fresh.token`
  unfoldable pub create_invite : CurrentUser → String → String → Action OrgInvite
  create_invite user email role =
      let normalized_role = lower (strip role) in
      let invite_email = normal_email email in
      let invite = new_invite user invite_email normalized_role in
      do
        guard (can_admin user.role) forbidden
        guard (member normalized_role valid_roles) invalid_role
        pending ← gets λ (db : AccountDb). still_pending user.org_id invite_email now db.invites
        guard (not pending) invite_pending
        known ← gets λ (db : AccountDb). any (member_of user.org_id invite_email) db.users
        guard (not known) already_member
        modify λ (db : AccountDb). record db { invites = db.invites ++ (invite ∷ []) }
        commit
        pure invite

  -- The member takes the role, the name and the password of the acceptance.
  updated_user : OrgInvite → String → String → User → User
  updated_user invite name password user = record user {
    role = invite.role;
    name = strip name;
    password_hash = some (crypto.hash_password password);
  }

  unfoldable pub take_existing : OrgInvite → String → String → User → Action User
  unfolding updated_user
  take_existing invite name password existing = do
    guard (existing.org_id == invite.org_id) email_in_use
    guard existing.is_active email_in_use
    modify λ (db : AccountDb). record db {
      users =
          update_where (λ (u : User). u.id == existing.id) (updated_user invite name password)
            db.users;
    }
    pure (updated_user invite name password existing)

  unfoldable pub take_new : OrgInvite → String → String → Action User
  unfolding add_user
  take_new invite name password =
      let user = new_user invite.org_id invite.email name password invite.role in
      do add_user user; pure user

  unfoldable pub accepting_user : OrgInvite → String → String → Option User → Action User
  unfolding take_existing take_new
  accepting_user invite name password none = take_new invite name password
  accepting_user invite name password (some existing) = take_existing invite name password existing

  unfoldable pub mark_accepted : OrgInvite → User → Action (Unit {0})
  mark_accepted invite user = modify λ (db : AccountDb). record db {
    invites =
        update_where (with_token invite.token_hash)
          (λ (i : OrgInvite). record i { accepted_at = some now; accepted_user_id = some user.id })
          db.invites;
  }

  unfoldable pub other_email : Option String → OrgInvite → Bool
  other_email none invite = false
  other_email (some email) invite = not (str_eq (normal_email email) invite.email)

  -- what is asked of the invitation that the token names
  unfoldable pub check_invite : Option String → OrgInvite → Action (Unit {0})
  unfolding other_email is_pending is_absent
  check_invite email invite = do
    guard (is_pending invite) invite_already_used
    guard (not (ltb invite.expires_at now)) invite_expired
    guard (not (other_email email invite)) email_mismatch

  unfoldable pub accept_found : String → String → Option String → OrgInvite → Action SignedIn
  unfolding sign_in
  accept_found name password email invite = do
    check_invite email invite
    existing ← gets λ (db : AccountDb). user_by_email invite.email db.users
    user ← accepting_user invite name password existing
    mark_accepted invite user
    sign_in user

  unfoldable pub accept_invite : String → String → String → Option String → Action SignedIn
  accept_invite token name password email = do
    found ←
        gets λ (db : AccountDb). first_where (with_token (crypto.sha256 (strip token))) db.invites
    elim found [
      | none ↦ raise invalid_token
      | some invite ↦ accept_found name password email invite
    ]
