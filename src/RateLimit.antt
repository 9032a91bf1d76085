-- ===== src/RateLimit.antt =====
-- api/app/middleware/rate_limit.py: how many requests an organization may make.
pub mod Window
use hcp.Prelude.{
  ℕ, zero, suc, ◌+◌, ◌-◌, ◌/◌, String, Bool, true, false, not, ◌&&◌, ◌||◌, Option, none, some, List,
  [], ◌∷◌, ◌++◌, length, select, ltb, leb, ◌==◌, str_eq, if◌then◌else◌,
}
use hcp.Json.{Json, Fields, end, field, get_field}
use hcp.Text.{lower, has_prefix, append}

-- Instants are microseconds.
abbrev pub window : ℕ
window = 60000000

-- RateLimitMiddleware._memory, a dict whose missing keys hold no times
abbrev pub Memory : Type 0
Memory = String → List ℕ

-- Whether the request may pass, how many more may, and the limit.
abbrev pub Answer : Type 0
Answer = Bool × ℕ × ℕ

-- t > now - 60
unfoldable pub in_window : ℕ → ℕ → Bool
in_window now t = ltb now (t + window)

-- self._memory[key] = hits
unfoldable pub store : String → List ℕ → Memory → Memory
store key hits memory other = if str_eq key other then hits else memory other

unfoldable pub check_memory : ℕ → String → ℕ → Memory → Answer × Memory
unfolding in_window store
check_memory limit key now memory =
    let hits = select (in_window now) (memory key) in
    let added = hits ++ (now ∷ []) in
    if leb limit (length hits)
    then ((false, 0, limit), memory)
    else ((true, limit - length added, limit), store key added memory)

-- What the code asks of Redis: INCR and EXPIRE, on a state of Redis.
pub record Redis (S : Type 0) : Type 0 where
  pub incr : String → S → ℕ × S
  pub expire : String → ℕ → S → S

module _ {S : Type 0} (redis : Redis S) (show_minute : ℕ → String) where
  unfoldable pub check_redis : ℕ → String → ℕ → S → Answer × S
  check_redis limit key now state =
      let bucket = append "hcp:ratelimit:" (append key (append ":" (show_minute (now / window)))) in
      let (count, counted) = redis.incr bucket state in
      (
        (leb count limit, limit - count, limit),
        if count == 1 then redis.expire bucket 120 counted else counted,
      )

-- text[n:]
drop_text : ℕ → String → String
drop_text zero s = s
drop_text (suc n) String.[] = String.[]
drop_text (suc n) (String.◌∷◌ _ s) = drop_text n s

take_text : ℕ → String → String
take_text zero s = String.[]
take_text (suc n) String.[] = String.[]
take_text (suc n) (String.◌∷◌ c s) = String.◌∷◌ c (take_text n s)

-- `decode` is safe_decode, with none where it raises, and `show` prints a claim.
module _ (decode : String → Option Fields) (show : Json → String) where
  claims_key : Option Fields → Option String
  claims_key none = none
  claims_key (some end) = none
  claims_key (some (field k v rest)) = elim (get_field "org_id" (field k v rest)) [
    | none ↦ some "org:unknown"
    | some org ↦ some (append "org:" (show org))
  ]

  unfoldable pub org_key : String → Option String
  unfolding claims_key drop_text take_text
  org_key authorization =
      let token = drop_text 7 authorization in
      if not (has_prefix (lower authorization) "bearer ")
      then none
      else if has_prefix token "hcp_"
      then some (append "apikey:" (take_text 24 token))
      else claims_key (decode token)

-- What dispatch answers: the response of the next handler, with the limit and what remains in its
-- headers or without them, or status 429.
pub data Response : Type 0 where
  passed : Response
  passed_with : ℕ → ℕ → Response
  too_many_429 : ℕ → Response

respond : Answer → Response
respond (allowed, remaining, limit) =
    if allowed then passed_with limit remaining else too_many_429 limit

-- dispatch without Redis, of the path and of the organization's key
unfoldable pub dispatch : ℕ → String → Option String → ℕ → Memory → Response × Memory
unfolding respond
dispatch limit path key now memory =
    if has_prefix path "/health" then (passed, memory) else elim key [
      | none ↦ (passed_with limit limit, memory)
      | some k ↦ let (answer, next) = check_memory limit k now memory in (respond answer, next)
    ]
