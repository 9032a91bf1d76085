-- ===== src/Accounts/Tokens.antt =====
-- api/app/auth/jwt.py: access and refresh tokens.
pub mod Revoked
use hcp.Prelude.{
  ℕ, ◌+◌, ◌*◌, String, Bool, true, false, not, ◌&&◌, Option, none, some, List, [], ◌∷◌, ◌++◌, ◌==◌,
  ltb, str_eq, first_where, update_where, if◌then◌else◌,
}
use hcp.Json
use hcp.Json.{Json, Fields, get_field}
use hcp.Accounts.{
  User, RefreshToken, AccountDb, Session, Error, Result, ok, Action, Crypto, pure, ◌>>=◌, ◌>>◌,
  gets, modify, flush,
}

abbrev pub second : ℕ
second = 1000000

-- settings.jwt_access_expire_minutes and settings.jwt_refresh_expire_days
pub record Lifetimes : Type 0 where
  pub access_minutes : ℕ
  pub refresh_days : ℕ

is_none : Option ℕ → Bool
is_none none = true
is_none (some _) = false

unfoldable pub user_by_id : ℕ → List User → Option User
user_by_id id users = first_where (λ (u : User). u.id == id) users

unfoldable pub has_hash : String → RefreshToken → Bool
has_hash hash token = str_eq token.token_hash hash

unfoldable pub is_open : RefreshToken → Bool
unfolding is_none
is_open token = is_none token.revoked_at

module _ (crypto : Crypto) (lifetimes : Lifetimes) where
  unfoldable pub create_access_token : User → ℕ → String
  create_access_token user now =
      crypto.sign user.id user.org_id user.role user.email
        (now + lifetimes.access_minutes * 60 * second)

  -- `raw` is what secrets.token_urlsafe gives.
  unfoldable pub create_refresh_token : String → ℕ → ℕ → Action String
  create_refresh_token raw now user_id = do
    modify λ (db : AccountDb). record db {
      refresh_tokens =
          db.refresh_tokens
          ++ (record {
            user_id = user_id;
            token_hash = crypto.sha256 raw;
            expires_at = now + lifetimes.refresh_days * 86400 * second;
            revoked_at = none;
          }
              ∷ []);
    }
    flush
    pure raw

  -- a token of an active user that is neither revoked nor expired
  unfoldable pub refresh_access_token : AccountDb → String → ℕ → Option (String × ℕ)
  unfolding has_hash is_open
  refresh_access_token db raw now =
      elim (first_where (λ (t : RefreshToken). has_hash (crypto.sha256 raw) t && is_open t)
        db.refresh_tokens) [
          | none ↦ none
          | some token ↦
              if ltb token.expires_at now then none else elim (user_by_id token.user_id db.users) [
                | none ↦ none
                | some user ↦
                    if user.is_active
                    then some (create_access_token user now, lifetimes.access_minutes * 60)
                    else none
              ]
        ]

  -- Only the first token with that hash is looked at, and the column is unique.
  unfoldable pub revoke_refresh_token : AccountDb → String → ℕ → Bool × AccountDb
  unfolding has_hash is_open
  revoke_refresh_token db raw now =
      elim (first_where (has_hash (crypto.sha256 raw)) db.refresh_tokens) [
        | none ↦ (false, db)
        | some token ↦
            if is_open token
            then (
              true,
              record db {
                refresh_tokens =
                    update_where (has_hash (crypto.sha256 raw))
                      (λ (t : RefreshToken). record t { revoked_at = some now }) db.refresh_tokens;
              },
            )
            else (false, db)
      ]

-- The claims of a token of the type "access"; a token that names no type counts as one. `decode` is
-- jwt.decode, with none for a JWTError.
unfoldable pub safe_decode : (String → Option Fields) → String → Option Fields
safe_decode decode token = elim (decode token) [
  | none ↦ none
  | some claims ↦
      if Json.json_eq
        (elim (get_field "type" claims) [ none ↦ Json.str "access" | some type ↦ type ])
        (Json.str "access")
      then some claims
      else none
]
