-- ===== src/Examples/Members.antt =====
-- Invitations and tokens, at concrete users.
use hcp.Prelude.{ℕ, String, ◌≡◌, refl, Bool, true, false, Option, none, some, List, [], ◌∷◌, str_eq}
use hcp.Json.{Fields, end, field, str}
use hcp.Auth.{CurrentUser}
use hcp.Accounts.{
  User, OrgInvite, RefreshToken, ApiKey, AccountDb, Session, Error, Result, ok, err, Crypto,
  invite_already_used, integrity_error,
}
use hcp.Accounts.Tokens.{Lifetimes, refresh_access_token, revoke_refresh_token}
use hcp.Accounts.Invites.{Fresh, SignedIn, accept_invite, create_invite}
use hcp.Accounts.Invites.SingleUse.{accept_invite_once}
use hcp.Accounts.Invites.Renewal.{create_invite_again}
use hcp.Accounts.Keys.{get_current_user, current_user}
use hcp.Accounts.Keys.Authenticated.{IsActiveUser, get_current_user_active}

-- Hashes that keep the text.
abbrev crypto : Crypto
crypto = record {
  sha256 = λ t. t;
  hash_password = λ t. t;
  check_password = λ t h. str_eq t h;
  sign = λ id org role email exp. "jwt";
}

abbrev lifetimes : Lifetimes
lifetimes = record { access_minutes = 15; refresh_days = 30 }

abbrev fresh : Fresh
fresh = record {
  org_id = 1;
  user_id = 7;
  invite_id = 3;
  slug = "org-1";
  token = "second";
  refresh = "r1";
}

abbrev ada : User
ada = record {
  id = 1;
  org_id = 1;
  email = "ada@x.org";
  name = "Ada";
  password_hash = some "secret";
  role = "admin";
  is_active = true;
}

abbrev invite : OrgInvite
invite = record {
  id = 2;
  org_id = 1;
  email = "bob@x.org";
  role = "editor";
  token_hash = "first";
  invited_by = 1;
  expires_at = 1000;
  accepted_at = none;
  accepted_user_id = none;
}

abbrev refresh_token : RefreshToken
refresh_token = record { user_id = 1; token_hash = "r0"; expires_at = 5000; revoked_at = none }

abbrev db : AccountDb
db = record {
  orgs = [];
  users = ada ∷ [];
  invites = invite ∷ [];
  refresh_tokens = refresh_token ∷ [];
  api_keys = [];
}

abbrev opened : Session
opened = record { committed = db; current = db }

-- Bob's account, and what his acceptance at time 500 leaves.
abbrev bob : User
bob = record {
  id = 7;
  org_id = 1;
  email = "bob@x.org";
  name = "Bob";
  password_hash = some "pw";
  role = "editor";
  is_active = true;
}

abbrev accepted_db : AccountDb
accepted_db = record {
  orgs = [];
  users = ada ∷ bob ∷ [];
  invites = record invite { accepted_at = some 500; accepted_user_id = some 7 } ∷ [];
  refresh_tokens =
      refresh_token
      ∷ record { user_id = 7; token_hash = "r1"; expires_at = 2592000000500; revoked_at = none }
      ∷ [];
  api_keys = [];
}

abbrev accepted : Session
accepted = record { committed = accepted_db; current = accepted_db }

abbrev signed_in : SignedIn
signed_in = record { user = bob; access_token = "jwt"; refresh_token = "r1"; expires_in = 900 }

accept_invite_once_example :
    accept_invite crypto lifetimes fresh 900 "first" "Eve" "x" none accepted
    ≡ (err invite_already_used, accepted)
unfolding accept_invite hcp.Prelude.first_where hcp.Accounts.Invites.with_token hcp.Text.strip
    hcp.Accounts.Invites.accept_found hcp.Accounts.Invites.check_invite
    hcp.Accounts.Invites.accepting_user hcp.Accounts.Invites.user_by_email hcp.Accounts.flush
    hcp.Accounts.consistent hcp.Prelude.Table.unique hcp.Accounts.member_clash
    hcp.Accounts.Invites.new_user hcp.Accounts.Invites.mark_accepted
    hcp.Accounts.Tokens.create_refresh_token hcp.Prelude.update_where hcp.Accounts.token_clash
    hcp.Accounts.Invites.is_absent hcp.Accounts.Invites.is_pending hcp.Accounts.Invites.normal_email
    hcp.Accounts.Invites.other_email hcp.Accounts.Invites.sign_in hcp.Accounts.Invites.take_existing
    hcp.Accounts.Invites.take_new hcp.Accounts.Tokens.create_access_token hcp.Accounts.commit
    hcp.Accounts.invite_clash hcp.Accounts.slug_clash hcp.Prelude.any hcp.Text.is_white
    hcp.Text.lower hcp.Text.strip_left
accept_invite_once_example =
    accept_invite_once crypto lifetimes fresh fresh 500 900 "first" "Bob" "pw" "Eve" "x" none none
      signed_in opened accepted refl

abbrev admin : CurrentUser
admin = record {
  id = 1;
  org_id = 1;
  email = "ada@x.org";
  name = "Ada";
  role = "admin";
  api_key_scopes = [];
}

-- The first invitation has expired at time 2000.
create_invite_again_example :
    (create_invite crypto lifetimes fresh 2000 admin "bob@x.org" "editor" opened).0
    ≡ err integrity_error
unfolding hcp.Auth.can_admin hcp.Auth.role_at_least hcp.Text.member hcp.Text.lower hcp.Text.strip
    hcp.Accounts.Invites.still_pending hcp.Prelude.first_where hcp.Accounts.Invites.pending_for
    hcp.Accounts.Invites.normal_email hcp.Prelude.any hcp.Accounts.Invites.member_of
create_invite_again_example =
    create_invite_again crypto lifetimes fresh 2000 admin "bob@x.org" "editor" opened refl refl refl
      refl refl

abbrev revoked_db : AccountDb
revoked_db = record db { refresh_tokens = record refresh_token { revoked_at = some 600 } ∷ [] }

abbrev claims : Fields
claims = field "sub" (str "1") end

get_current_user_active_example : IsActiveUser crypto (current_user crypto ada []) db
unfolding get_current_user hcp.Text.lower hcp.Accounts.Keys.is_api_key hcp.Text.has_prefix
    hcp.Accounts.Tokens.safe_decode hcp.Json.json_eq hcp.Accounts.Tokens.user_by_id
    hcp.Prelude.first_where
get_current_user_active_example =
    get_current_user_active crypto (λ token. some claims) (λ c. some 1) (some ("Bearer", "jwt")) 700
      db db (current_user crypto ada []) refl
