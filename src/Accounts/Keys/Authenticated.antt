-- ===== src/Accounts/Keys/Authenticated.antt =====
-- Whom api/app/auth lets in.
use hcp.Prelude.{
  ℕ, String, ◌≡◌, refl, subst, ap, Bool, true, false, Option, none, some, List, [], ◌∷◌, str_eq,
  select, if◌then◌else◌, Bool-cases, Option-cases, inl, inr,
}
use hcp.Json.{Fields}
use hcp.Text.{lower}
use hcp.Auth.{CurrentUser}
use hcp.Accounts.{User, ApiKey, AccountDb, Crypto}
use hcp.Accounts.Tokens.{user_by_id, safe_decode}
use hcp.Accounts.Keys.{
  is_candidate, is_api_key, verified, authenticate_api_key, current_user, get_current_user,
}

-- The caller is an active user of the database, with these scopes.
abbrev pub IsActiveUser : Crypto → CurrentUser → AccountDb → Type 0
IsActiveUser crypto caller db =
    (id : ℕ) × (user : User) × (scopes : List String) × (user_by_id id db.users ≡ some user)
    × (user.is_active ≡ true)
    × (current_user crypto user scopes ≡ caller)

abbrev OwnerOf : User → ApiKey → List User → List ApiKey → Crypto → String → Type 0
OwnerOf user key users keys crypto raw =
    (user_by_id key.user_id users ≡ some user)
    × (user.is_active ≡ true)
    × (crypto.check_password raw key.key_hash ≡ true)

if_some :
    {A : Type 0} (b : Bool) (x y : A) → (if b then some x else none) ≡ some y → (b ≡ true) × (x ≡ y)
if_some true x y h = (refl, cc h)
if_some false x y h = absurd (cc h)

verified_owner :
    (crypto : Crypto) (raw : String) (users : List User) (keys : List ApiKey) (user : User)
    (key : ApiKey)
    → verified crypto raw users keys ≡ some (user, key)
    → OwnerOf user key users keys crypto raw
unfolding verified
verified_owner crypto raw users [] user key h =
    let k : ◌≡◌ {A = Option (User × ApiKey)} none (some (user, key)) = h in absurd (cc k)
verified_owner crypto raw users (k ∷ keys) user key h =
    elim (Bool-cases (crypto.check_password raw k.key_hash)) [
      | inr miss ↦ verified_owner crypto raw users keys user key (rw miss at h)
      | inl fits ↦ elim (Option-cases (user_by_id k.user_id users)) [
        | inl gone ↦
            let x : ◌≡◌ {A = Option (User × ApiKey)} none (some (user, key)) =
              rw (fits, gone) at h in
            absurd (cc x)
        | inr (owner, there) ↦
            let (live, same) =
              if_some owner.is_active (owner, k) (user, key) (rw (fits, there) at h) in
            subst (λ (p : User × ApiKey). OwnerOf (p.0) (p.1) users (k ∷ keys) crypto raw) same
              (there, live, fits)
      ]
    ]

by_key :
    (crypto : Crypto) (decode : String → Option Fields) (subject : Fields → Option ℕ)
    (scheme token : String) (now : ℕ) (db after : AccountDb) (caller : CurrentUser)
    → str_eq (lower scheme) "bearer" ≡ true
    → is_api_key token ≡ true
    → get_current_user crypto decode subject (some (scheme, token)) now db ≡ some (caller, after)
    → IsActiveUser crypto caller db
unfolding get_current_user authenticate_api_key
by_key crypto decode subject scheme token now db after caller bearer api h =
    let found = verified crypto token db.users (select (is_candidate token) db.api_keys) in
    elim (Option-cases found) [
      | inl e ↦
          let x : ◌≡◌ {A = Option (CurrentUser × AccountDb)} none (some (caller, after)) =
            rw (bearer, api, e) at h in
          absurd (cc x)
      | inr ((user, key), e) ↦
          let (there, live, fits) =
            verified_owner crypto token db.users (select (is_candidate token) db.api_keys) user key
              e in
          let x = rw (bearer, api, e) at h in
          (
            key.user_id,
            user,
            key.scopes,
            there,
            live,
            ap (λ (p : CurrentUser × AccountDb). p.0) ((if_some true _ _ x).1),
          )
    ]

by_token :
    (crypto : Crypto) (decode : String → Option Fields) (subject : Fields → Option ℕ)
    (scheme token : String) (now : ℕ) (db after : AccountDb) (caller : CurrentUser)
    → str_eq (lower scheme) "bearer" ≡ true
    → is_api_key token ≡ false
    → get_current_user crypto decode subject (some (scheme, token)) now db ≡ some (caller, after)
    → IsActiveUser crypto caller db
unfolding get_current_user
by_token crypto decode subject scheme token now db after caller bearer jwt h =
    elim (Option-cases (safe_decode decode token)) [
      | inl e ↦
          let x : ◌≡◌ {A = Option (CurrentUser × AccountDb)} none (some (caller, after)) =
            rw (bearer, jwt, e) at h in
          absurd (cc x)
      | inr (claims, e) ↦ elim (Option-cases (subject claims)) [
        | inl nobody ↦
            let x : ◌≡◌ {A = Option (CurrentUser × AccountDb)} none (some (caller, after)) =
              rw (bearer, jwt, e, nobody) at h in
            absurd (cc x)
        | inr (user_id, given) ↦ elim (Option-cases (user_by_id user_id db.users)) [
          | inl gone ↦
              let x : ◌≡◌ {A = Option (CurrentUser × AccountDb)} none (some (caller, after)) =
                rw (bearer, jwt, e, given, gone) at h in
              absurd (cc x)
          | inr (user, there) ↦
              let (live, same) =
                if_some user.is_active (current_user crypto user [], db) (caller, after)
                  (rw (bearer, jwt, e, given, there) at h) in
              (user_id, user, [], there, live, ap (λ (p : CurrentUser × AccountDb). p.0) same)
        ]
      ]
    ]

-- get_current_user lets nobody in but an active user of the database, by a token or by an API key:
-- whoever it answers has that user's identifier, organization and role.
pub get_current_user_active :
    (crypto : Crypto) (decode : String → Option Fields) (subject : Fields → Option ℕ)
    (credentials : Option (String × String)) (now : ℕ) (db after : AccountDb) (caller : CurrentUser)
    → get_current_user crypto decode subject credentials now db ≡ some (caller, after)
    → IsActiveUser crypto caller db
unfolding get_current_user
get_current_user_active crypto decode subject none now db after caller h =
    let x : ◌≡◌ {A = Option (CurrentUser × AccountDb)} none (some (caller, after)) = h in
    absurd (cc x)
get_current_user_active crypto decode subject (some (scheme, token)) now db after caller h =
    elim (Bool-cases (str_eq (lower scheme) "bearer")) [
      | inr other ↦
          let x : ◌≡◌ {A = Option (CurrentUser × AccountDb)} none (some (caller, after)) =
            rw other at h in
          absurd (cc x)
      | inl bearer ↦ elim (Bool-cases (is_api_key token)) [
        | inl api ↦ by_key crypto decode subject scheme token now db after caller bearer api h
        | inr jwt ↦ by_token crypto decode subject scheme token now db after caller bearer jwt h
      ]
    ]
