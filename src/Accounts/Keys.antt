-- ===== src/Accounts/Keys.antt =====
-- api/app/auth/api_keys.py, get_current_user of api/app/auth/dependencies.py, and the endpoints of
-- api/app/routers/auth.py.
pub mod Authenticated
use hcp.Prelude.{
  ℕ, zero, suc, ◌*◌, String, Bool, true, false, not, ◌&&◌, ◌||◌, Option, none, some, List, [], ◌∷◌,
  ◌++◌, ◌==◌, str_eq, first_where, select, update_where, any, if◌then◌else◌,
}
use hcp.Json.{Fields, Json, get_field}
use hcp.Text.{lower, has_prefix}
use hcp.Auth.{CurrentUser}
use hcp.Accounts.{
  User, ApiKey, AccountDb, Session, Error, Result, ok, err, Action, Crypto, pure, raise, bind,
  ◌>>=◌, ◌>>◌, gets, modify, commit, flush,
}
use hcp.Accounts.Tokens.{
  Lifetimes, user_by_id, create_access_token, create_refresh_token, refresh_access_token,
  revoke_refresh_token, safe_decode,
}

-- text[:n]
take_text : ℕ → String → String
take_text zero s = String.[]
take_text (suc n) String.[] = String.[]
take_text (suc n) (String.◌∷◌ c s) = String.◌∷◌ c (take_text n s)

-- a key of the right prefix that has not been deleted
unfoldable pub is_candidate : String → ApiKey → Bool
unfolding take_text
is_candidate raw_key k = str_eq k.key_prefix (take_text 16 raw_key) && k.is_active

unfoldable pub is_api_key : String → Bool
is_api_key token = has_prefix token "hcp_live_" || has_prefix token "hcp_test_"

module _ (crypto : Crypto) where
  -- The loop ends at the first candidate whose hash fits, and the owner decides.
  unfoldable pub verified : String → List User → List ApiKey → Option (User × ApiKey)
  verified raw_key users [] = none
  verified raw_key users (k ∷ keys) =
      let later = verified raw_key users keys in
      if crypto.check_password raw_key k.key_hash
      then elim (user_by_id k.user_id users) [
        | none ↦ none
        | some user ↦ if user.is_active then some (user, k) else none
      ]
      else later

  unfoldable pub authenticate_api_key : AccountDb → String → Option (User × ApiKey)
  authenticate_api_key db raw_key =
      if is_api_key raw_key
      then verified raw_key db.users (select (is_candidate raw_key) db.api_keys)
      else none

  -- the key that answered was used at `now`
  touch : ApiKey → ℕ → AccountDb → AccountDb
  touch key now db = record db {
    api_keys =
        update_where (λ (k : ApiKey). k.id == key.id)
          (λ (k : ApiKey). record k { last_used_at = some now }) db.api_keys;
  }

  unfoldable pub current_user : User → List String → CurrentUser
  current_user user scopes = record {
    id = user.id;
    org_id = user.org_id;
    email = user.email;
    name = user.name;
    role = user.role;
    api_key_scopes = scopes;
  }

  -- `none` is that nobody is let in: status 401, or the KeyError or ValueError of a claim "sub" that
  -- is missing or no identifier. `credentials` are the scheme and the token of the Authorization
  -- header, `decode` is jwt.decode and `subject` is UUID(claims["sub"]), `none` where it raises.
  unfoldable pub get_current_user :
      (String → Option Fields)
      → (Fields → Option ℕ)
      → Option (String × String)
      → ℕ
      → AccountDb
      → Option (CurrentUser × AccountDb)
  unfolding touch
  get_current_user decode subject none now db = none
  get_current_user decode subject (some (scheme, token)) now db =
      if not (str_eq (lower scheme) "bearer")
      then none
      else if is_api_key token
      then elim (authenticate_api_key db token) [
        | none ↦ none
        | some (user, key) ↦ some (current_user user key.scopes, touch key now db)
      ]
      else elim (safe_decode decode token) [
        | none ↦ none
        | some claims ↦ elim (subject claims) [
          | none ↦ none
          | some user_id ↦ elim (user_by_id user_id db.users) [
            | none ↦ none
            | some user ↦ if user.is_active then some (current_user user [], db) else none
          ]
        ]
      ]

-- What an endpoint answers: a body, or a status and its code.
pub data Reply (A : Type 0) : Type 0 where
  reply : A → Reply A
  status : ℕ → String → Reply A
  refused : Reply A

pub record TokenResponse : Type 0 where
  pub access_token : String
  pub refresh_token : Option String
  pub expires_in : ℕ

unfoldable pub may_log_in : String → User → Bool
may_log_in email u = str_eq u.email email && u.is_active

module _ (crypto : Crypto) (lifetimes : Lifetimes) where
  password_fits : String → User → Bool
  password_fits password user = elim user.password_hash [
    | none ↦ false
    | some hash ↦ crypto.check_password password hash
  ]

  issue : User → String → ℕ → Action TokenResponse
  issue user raw now = do
    refresh ← create_refresh_token crypto lifetimes raw now user.id
    commit
    pure (record {
      access_token = create_access_token crypto lifetimes user now;
      refresh_token = some refresh;
      expires_in = lifetimes.access_minutes * 60;
    })

  answered : {A : Type 0} → Result A × Session → Reply A × Session
  answered (ok a, s) = (reply a, s)
  answered (err _, s) = (refused, s)

  unfoldable pub login : String → String → String → ℕ → Session → Reply TokenResponse × Session
  unfolding password_fits issue answered
  login email password raw now s = elim (first_where (may_log_in email) s.current.users) [
    | none ↦ (status 401 "unauthorized", s)
    | some user ↦
        if password_fits password user
        then answered (issue user raw now s)
        else (status 401 "unauthorized", s)
  ]

  unfoldable pub refresh : String → ℕ → Session → Reply TokenResponse × Session
  unfolding answered
  refresh raw now s = elim (refresh_access_token crypto lifetimes s.current raw now) [
    | none ↦ (status 401 "unauthorized", s)
    | some (access, expires_in) ↦ answered (
        bind (commit s) (λ _.
          pure (record { access_token = access; refresh_token = none; expires_in = expires_in })))
  ]

  unfoldable pub logout : String → ℕ → Session → Reply (Unit {0}) × Session
  unfolding answered
  logout raw now s =
      answered (
        commit (record s { current = (revoke_refresh_token crypto lifetimes s.current raw now).1 }))

-- `full_key` and `prefix` are made by generate_api_key, and the scopes default to reading and writing.
key_record : Crypto → User → String → Option (List String) → ℕ → String → ApiKey
key_record crypto user name scopes id full_key = record {
  id = id;
  org_id = user.org_id;
  user_id = user.id;
  name = name;
  key_prefix = take_text 16 full_key;
  key_hash = crypto.hash_password full_key;
  scopes = elim scopes [
    | none ↦ "read" ∷ "write" ∷ []
    | some l ↦ elim l [ [] ↦ "read" ∷ "write" ∷ [] | s ∷ rest ↦ s ∷ rest ]
  ];
  is_active = true;
  last_used_at = none;
}

module _ (crypto : Crypto) (user : CurrentUser) where
  unfoldable pub create_api_key :
      String → Option (List String) → ℕ → String → Session → Reply ApiKey × Session
  unfolding key_record take_text
  create_api_key name scopes id full_key s = elim (user_by_id user.id s.current.users) [
    | none ↦ (status 401 "unauthorized", s)
    | some owner ↦
        let key = key_record crypto owner name scopes id full_key in
        let added = record s {
          current = record s.current { api_keys = s.current.api_keys ++ (key ∷ []) };
        } in
        let (answer, t) = commit added in (elim answer [ ok _ ↦ reply key | err _ ↦ refused ], t)
  ]

  unfoldable pub owned : ApiKey → Bool
  owned k = k.org_id == user.org_id && (k.user_id == user.id)

  unfoldable pub list_api_keys : Session → List ApiKey
  list_api_keys s = select (λ (k : ApiKey). owned k && k.is_active) s.current.api_keys

  unfoldable pub delete_api_key : ℕ → Session → Reply (Unit {0}) × Session
  delete_api_key key_id s =
      let mine = λ (k : ApiKey). k.id == key_id && owned k in
      if any mine s.current.api_keys
      then (let (answer, t) = commit (record s {
        current = record s.current {
          api_keys =
              update_where mine (λ (k : ApiKey). record k { is_active = false }) s.current.api_keys;
        };
      }) in
          (elim answer [ ok _ ↦ reply tt | err _ ↦ refused ], t))
      else (status 404 "not_found", s)
