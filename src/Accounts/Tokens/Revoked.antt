-- ===== src/Accounts/Tokens/Revoked.antt =====
-- A refresh token of api/app/auth/jwt.py that is revoked.
use hcp.Prelude.{
  ℕ, String, ◌≡◌, refl, sym, ◌∙◌, ap, Bool, true, false, ◌&&◌, none, some, List, [], ◌∷◌,
  first_where, update_where, Bool-cases, Option-cases, inl, inr,
}
use hcp.Accounts.{RefreshToken, AccountDb, Crypto}
use hcp.Accounts.Tokens.{Lifetimes, has_hash, is_open, refresh_access_token, revoke_refresh_token}

abbrev revoked : ℕ → RefreshToken → RefreshToken
revoked now t = record t { revoked_at = some now }

none_open :
    (hash : String) (now : ℕ) (ts : List RefreshToken)
    → first_where
        (λ (t : RefreshToken). has_hash hash t && is_open t)
        (update_where (has_hash hash) (revoked now) ts)
      ≡ none
unfolding first_where update_where has_hash is_open
none_open hash now [] = refl
none_open hash now (t ∷ ts) = elim (Bool-cases (has_hash hash t)) [
  | inl e ↦ rw (e, e) (none_open hash now ts)
  | inr e ↦ rw (e, e) (none_open hash now ts)
]

revoke_tokens :
    (crypto : Crypto) (lifetimes : Lifetimes) (raw : String) (now : ℕ) (db after : AccountDb)
    → revoke_refresh_token crypto lifetimes db raw now ≡ (true, after)
    → after.refresh_tokens
      ≡ update_where (has_hash (crypto.sha256 raw)) (revoked now) db.refresh_tokens
unfolding revoke_refresh_token
revoke_tokens crypto lifetimes raw now db after h =
    elim (Option-cases (first_where (has_hash (crypto.sha256 raw)) db.refresh_tokens)) [
      | inl e ↦
          let k : ◌≡◌ {A = Bool × AccountDb} (false, db) (true, after) =
            rw (e, revoke_refresh_token) at h in
          absurd (cc k)
      | inr (t, e) ↦ elim (Bool-cases (is_open t)) [
        | inr closed ↦
            let k : ◌≡◌ {A = Bool × AccountDb} (false, db) (true, after) =
              rw (e, closed, revoke_refresh_token) at h in
            absurd (cc k)
        | inl live ↦
            let k = rw (e, live, revoke_refresh_token) at h in
            sym (ap (λ (p : Bool × AccountDb). p.1.refresh_tokens) k)
      ]
    ]

-- A refresh token that has been revoked gives no access token any more, at no time.
pub revoke-refresh :
    (crypto : Crypto) (lifetimes : Lifetimes) (raw : String) (now later : ℕ) (db after : AccountDb)
    → revoke_refresh_token crypto lifetimes db raw now ≡ (true, after)
    → refresh_access_token crypto lifetimes after raw later ≡ none
unfolding refresh_access_token
revoke-refresh crypto lifetimes raw now later db after h =
    let tokens = revoke_tokens crypto lifetimes raw now db after h in
    let none_left =
      ap (first_where (λ (t : RefreshToken). has_hash (crypto.sha256 raw) t && is_open t)) tokens
      ∙ none_open (crypto.sha256 raw) now db.refresh_tokens in
    rw (none_left, refresh_access_token) refl
