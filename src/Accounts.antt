-- ===== src/Accounts.antt =====
-- Organizations, users, invitations and tokens: their tables of api/app/models/db.py with the unique
-- constraints, and the session that api/app/services/org_invites.py and api/app/auth act on.
pub mod Tokens
pub mod Invites
pub mod Keys
use hcp.Prelude.{
  ℕ, String, Bool, true, false, ◌&&◌, ◌||◌, Option, none, some, List, [], ◌∷◌, ◌++◌, ◌==◌, ◌≡◌,
  refl, str_eq, if◌then◌else◌,
}
use hcp.Prelude.Table.{unique}

pub record Org : Type 0 where
  pub id : ℕ
  pub name : String
  pub slug : String
  pub plan : String

pub record User : Type 0 where
  pub id : ℕ
  pub org_id : ℕ
  pub email : String
  pub name : String
  pub password_hash : Option String
  pub role : String
  pub is_active : Bool

pub record OrgInvite : Type 0 where
  pub id : ℕ
  pub org_id : ℕ
  pub email : String
  pub role : String
  pub token_hash : String
  pub invited_by : ℕ
  pub expires_at : ℕ
  pub accepted_at : Option ℕ
  pub accepted_user_id : Option ℕ

pub record RefreshToken : Type 0 where
  pub user_id : ℕ
  pub token_hash : String
  pub expires_at : ℕ
  pub revoked_at : Option ℕ

pub record ApiKey : Type 0 where
  pub id : ℕ
  pub org_id : ℕ
  pub user_id : ℕ
  pub name : String
  pub key_prefix : String
  pub key_hash : String
  pub scopes : List String
  pub is_active : Bool
  pub last_used_at : Option ℕ

pub record AccountDb : Type 0 where
  pub orgs : List Org
  pub users : List User
  pub invites : List OrgInvite
  pub refresh_tokens : List RefreshToken
  pub api_keys : List ApiKey

unfoldable pub slug_clash : Org → Org → Bool
slug_clash a b = str_eq a.slug b.slug

unfoldable pub member_clash : User → User → Bool
member_clash a b = a.org_id == b.org_id && str_eq a.email b.email

-- the unique constraint on the organization and the email, and the unique token_hash
unfoldable pub invite_clash : OrgInvite → OrgInvite → Bool
invite_clash a b =
    a.org_id == b.org_id && str_eq a.email b.email || str_eq a.token_hash b.token_hash

unfoldable pub token_clash : RefreshToken → RefreshToken → Bool
token_clash a b = str_eq a.token_hash b.token_hash

unfoldable pub consistent : AccountDb → Bool
consistent db =
    unique slug_clash db.orgs
    && (unique member_clash db.users
        && (unique invite_clash db.invites && unique token_clash db.refresh_tokens))

-- What the database has, and what the transaction sees.
pub record Session : Type 0 where
  pub committed : AccountDb
  pub current : AccountDb

-- The `ValueError`s of OrgInviteService by their text, and what the database refuses.
pub data Error : Type 0 where
  slug_taken email_in_use forbidden invalid_role invite_pending already_member : Error
  invalid_token invite_already_used invite_expired email_mismatch : Error
  integrity_error : Error

pub data Result (A : Type 0) : Type 0 where
  ok : A → Result A
  err : Error → Result A

abbrev pub Action : Type 0 → Type 0
Action A = Session → Result A × Session

abbrev pub pure : {A : Type 0} → A → Action A
pure a s = (ok a, s)

abbrev pub raise : {A : Type 0} → Error → Action A
raise e s = (err e, s)

abbrev pub bind : {A B : Type 0} → Result A × Session → (A → Action B) → Result B × Session
bind (ok a, t) f = f a t
bind (err e, t) f = (err e, t)

-- Inversion of a successful bind.
pub bind-eq :
    {A B : Type 0} (r : Result A × Session) (f : A → Action B) {b : B} {u : Session}
    → bind r f ≡ (ok b, u)
    → (a : A) × (t : Session) × (r ≡ (ok a, t)) × (f a t ≡ (ok b, u))
bind-eq (ok a, t) f h = (a, t, refl, h)
bind-eq (err e, t) f h = cc

infixl 5 ◌>>=◌ ◌>>◌
abbrev pub ◌>>=◌ : {A B : Type 0} → Action A → (A → Action B) → Action B
m >>= f = λ s. bind (m s) f

abbrev pub ◌>>◌ : {A B : Type 0} → Action A → Action B → Action B
m >> n = m >>= λ _. n

abbrev pub gets : {A : Type 0} → (AccountDb → A) → Action A
gets f s = (ok (f s.current), s)

abbrev pub modify : (AccountDb → AccountDb) → Action (Unit {0})
modify f s = (ok tt, record s { current = f s.current })

abbrev pub guard : Bool → Error → Action (Unit {0})
guard b e = if b then pure tt else raise e

unfoldable pub flush : Action (Unit {0})
flush s = if consistent s.current then (ok tt, s) else (err integrity_error, s)

-- db.commit(), which flushes first
unfoldable pub commit : Action (Unit {0})
commit s =
    if consistent s.current
    then (ok tt, record s { committed = s.current })
    else (err integrity_error, s)

-- What the code takes from secrets, hashlib, bcrypt and jose: hashes, and the signed token of a
-- user's identifier, organization, role and email.
pub record Crypto : Type 0 where
  pub sha256 : String → String
  pub hash_password : String → String
  pub check_password : String → String → Bool
  pub sign : ℕ → ℕ → String → String → ℕ → String
