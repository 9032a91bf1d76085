-- ===== src/RateLimit/Window.antt =====
-- The hits that api/app/middleware/rate_limit.py keeps, against a log of all that it let pass.
use hcp.Prelude.{
  ℕ, suc, ◌-◌, ◌≤◌, String, ◌≡◌, refl, sym, ◌∙◌, ap, Bool, true, false, List, [], ◌∷◌, ◌++◌, arith,
  length, select, ltb, leb, str_eq, eq_iff, if◌then◌else◌, Bool-cases, inl, inr,
}
use mathlib.Core.List.{append-nil}
use hcp.RateLimit.{Memory, Answer, in_window, store, check_memory}

-- Every request that was let pass, with its key, the oldest first; nothing is forgotten.
abbrev pub Log : Type 0
Log = List (String × ℕ)

abbrev pub times_of : String → Log → List ℕ
times_of key [] = []
times_of key ((k, t) ∷ log) = if str_eq k key then t ∷ times_of key log else times_of key log

-- A request passes if fewer than `limit` have passed under its key in the last minute.
abbrev pub allow : ℕ → String → ℕ → Log → Answer × Log
allow limit key now log =
    let recent = length (select (in_window now) (times_of key log)) in
    if ltb recent limit
    then ((true, limit - suc recent, limit), log ++ (key, now) ∷ [])
    else ((false, 0, limit), log)

abbrev pub run : ℕ → List (String × ℕ) → Memory → List Answer
run limit [] memory = []
run limit ((key, now) ∷ requests) memory =
    let (answer, next) = check_memory limit key now memory in answer ∷ run limit requests next

abbrev pub run_log : ℕ → List (String × ℕ) → Log → List Answer
run_log limit [] log = []
run_log limit ((key, now) ∷ requests) log =
    let (answer, next) = allow limit key now log in answer ∷ run_log limit requests next

-- The clock does not go back.
abbrev pub Ordered : ℕ → List (String × ℕ) → Type 0
Ordered last [] = Unit {0}
Ordered last ((_, now) ∷ requests) = (last ≤ now) × Ordered now requests

-- From `last` on, the hits in the window are the logged times in the window.
abbrev Agree : ℕ → Memory → Log → Type 0
Agree last memory log =
    (key : String) (now : ℕ)
    → last ≤ now
    → select (in_window now) (memory key) ≡ select (in_window now) (times_of key log)

select-append : (p : ℕ → Bool) (xs ys : List ℕ) → select p (xs ++ ys) ≡ select p xs ++ select p ys
unfolding select
select-append p [] ys = refl
select-append p (x ∷ xs) ys = elim (Bool-cases (p x)) [
  | inl e ↦ rw e (ap (λ l. x ∷ l) (select-append p xs ys))
  | inr e ↦ rw e (select-append p xs ys)
]

-- What has left the window has left every later one.
select_later :
    (now later : ℕ) (xs : List ℕ)
    → now ≤ later
    → select (in_window later) (select (in_window now) xs) ≡ select (in_window later) xs
unfolding select in_window
select_later now later [] h = refl
select_later now later (x ∷ xs) h = elim (Bool-cases (in_window now x)) [
  | inl e ↦ rw e elim (Bool-cases (in_window later x)) [
    | inl k ↦ rw k (ap (λ l. x ∷ l) (select_later now later xs h))
    | inr k ↦ rw k (select_later now later xs h)
  ]
  | inr e ↦
      let gone : in_window later x ≡ false = ground (arith, e) in
      rw (e, gone) (select_later now later xs h)
]

times_of-append :
    (key j : String) (t : ℕ) (log : Log)
    → times_of key (log ++ (j, t) ∷ []) ≡ times_of key log ++ (if str_eq j key then t ∷ [] else [])
times_of-append key j t [] = elim (Bool-cases (str_eq j key)) [
  | inl e ↦ rw e refl
  | inr e ↦ rw e refl
]
times_of-append key j t ((k, u) ∷ log) = elim (Bool-cases (str_eq k key)) [
  | inl e ↦ rw e (ap (λ l. u ∷ l) (times_of-append key j t log))
  | inr e ↦ rw e (times_of-append key j t log)
]

length_snoc : (xs : List ℕ) (t : ℕ) → length (xs ++ (t ∷ [])) ≡ suc (length xs)
length_snoc [] t = refl
length_snoc (x ∷ xs) t = ap suc (length_snoc xs t)

length-select : (p : ℕ → Bool) (xs : List ℕ) → length (select p xs) ≤ length xs
unfolding select
length-select p [] = omega arith
length-select p (x ∷ xs) = elim (Bool-cases (p x)) [
  | inl e ↦ rw e (omega (arith, length-select p xs))
  | inr e ↦ rw e (omega (arith, length-select p xs))
]

module _ (limit : ℕ) (key : String) (last now : ℕ) (memory : Memory) (log : Log)
    (agree : Agree last memory log) (clock : last ≤ now) where
  abbrev hits : List ℕ
  hits = select (in_window now) (memory key)

  hits_agree : hits ≡ select (in_window now) (times_of key log)
  hits_agree = agree key now clock

  later_agree :
      (k : String) (later : ℕ)
      → now ≤ later
      → select (in_window later) (memory k) ≡ select (in_window later) (times_of k log)
  later_agree k later h = agree k later (omega arith)

  hit_kept :
      (later : ℕ)
      → now ≤ later
      → select (in_window later) (hits ++ (now ∷ []))
        ≡ select (in_window later) (times_of key log ++ (now ∷ []))
  hit_kept later h =
      select-append (in_window later) hits (now ∷ [])
      ∙ ap (λ l. l ++ select (in_window later) (now ∷ []))
          (select_later now later (memory key) h ∙ later_agree key later h)
      ∙ sym (select-append (in_window later) (times_of key log) (now ∷ []))

  passed-Agree : Agree now (store key (hits ++ (now ∷ [])) memory) (log ++ (key, now) ∷ [])
  unfolding store
  passed-Agree k later h = elim (Bool-cases (str_eq key k)) [
    | inl e ↦
        let same : key ≡ k = (eq_iff key k).0 e in
        let logged : times_of k (log ++ (key, now) ∷ []) ≡ times_of k log ++ (now ∷ []) =
          times_of-append k key now log ∙ rw e refl in
        rw (e, logged, ← same) (hit_kept later h)
    | inr e ↦
        let logged : times_of k (log ++ (key, now) ∷ []) ≡ times_of k log =
          times_of-append k key now log ∙ rw e (append-nil (times_of k log)) in
        rw (e, logged) (later_agree k later h)
  ]

  -- The check answers as the log does, and leaves the hits in agreement with it.
  check_agrees :
      ((check_memory limit key now memory).0 ≡ (allow limit key now log).0)
      × Agree now ((check_memory limit key now memory).1) ((allow limit key now log).1)
  unfolding check_memory
  check_agrees = elim (Bool-cases (leb limit (length hits))) [
    | inl full ↦
        let none_left : ltb (length (select (in_window now) (times_of key log))) limit ≡ false =
          rw (← hits_agree) (ground (arith, full)) in
        (rw (full, none_left) refl, rw (full, none_left) later_agree)
    | inr free ↦
        let some_left : ltb (length (select (in_window now) (times_of key log))) limit ≡ true =
          rw (← hits_agree) (ground (arith, free)) in
        (
          rw (free, some_left)
              (ap (λ n. (true, limit - n, limit))
                (length_snoc hits now ∙ ap (λ l. suc (length l)) hits_agree)),
          rw (free, some_left) passed-Agree,
        )
  ]

abbrev pub memory_after : ℕ → List (String × ℕ) → Memory → Memory
memory_after limit [] memory = memory
memory_after limit ((key, now) ∷ requests) memory =
    memory_after limit requests ((check_memory limit key now memory).1)

abbrev pub log_after : ℕ → List (String × ℕ) → Log → Log
log_after limit [] log = log
log_after limit ((key, now) ∷ requests) log = log_after limit requests ((allow limit key now log).1)

abbrev pub last_time : ℕ → List (String × ℕ) → ℕ
last_time last [] = last
last_time last ((_, now) ∷ requests) = last_time now requests

runs-Agree :
    (limit : ℕ) (requests : List (String × ℕ)) (last : ℕ) (memory : Memory) (log : Log)
    → Ordered last requests
    → Agree last memory log
    → (run limit requests memory ≡ run_log limit requests log)
      × Agree
          (last_time last requests)
          (memory_after limit requests memory)
          (log_after limit requests log)
runs-Agree limit [] last memory log clock agree = (refl, agree)
runs-Agree limit ((key, now) ∷ requests) last memory log (clock, clocks) agree =
    let (same, kept) = check_agrees limit key last now memory log agree clock in
    let (answers, after) =
      runs-Agree limit requests now ((check_memory limit key now memory).1)
        ((allow limit key now log).1) clocks kept in
    (cc (same, answers), after)

-- The code keeps fewer hits than it has let pass, and no sequence of requests tells: from an empty
-- memory it answers as a log of all that passed would, if the clock does not go back.
pub run_refines :
    (limit : ℕ) (requests : List (String × ℕ))
    → Ordered 0 requests
    → run limit requests (λ _. []) ≡ run_log limit requests []
run_refines limit requests clock =
    (runs-Agree limit requests 0 (λ _. []) [] clock (λ _ _ _. refl)).0

check_memory_bounded :
    (limit : ℕ) (key : String) (now : ℕ) (memory : Memory)
    → ((k : String) → length (memory k) ≤ limit)
    → (k : String) → length ((check_memory limit key now memory).1 k) ≤ limit
unfolding check_memory store
check_memory_bounded limit key now memory bounded k =
    let kept = select (in_window now) (memory key) in
    elim (Bool-cases (leb limit (length kept))) [
      | inl full ↦ rw full (bounded k)
      | inr free ↦ rw free elim (Bool-cases (str_eq key k)) [
        | inl e ↦ rw (e, length_snoc kept now) (ground (arith, free))
        | inr e ↦ rw e (bounded k)
      ]
    ]

-- No key ever holds more hits than the limit.
pub memory_bounded :
    (limit : ℕ) (requests : List (String × ℕ)) (memory : Memory)
    → ((k : String) → length (memory k) ≤ limit)
    → (k : String) → length (memory_after limit requests memory k) ≤ limit
memory_bounded limit [] memory bounded k = bounded k
memory_bounded limit ((key, now) ∷ requests) memory bounded k =
    memory_bounded limit requests ((check_memory limit key now memory).1)
      (check_memory_bounded limit key now memory bounded) k

-- Of all the requests under a key that were let pass from an empty memory on, at most `limit` fall in
-- the minute before any instant from the last request on, if the clock does not go back.
pub passed_in_window :
    (limit : ℕ) (requests : List (String × ℕ)) (key : String) (now : ℕ)
    → Ordered 0 requests
    → last_time 0 requests ≤ now
    → length (select (in_window now) (times_of key (log_after limit requests []))) ≤ limit
passed_in_window limit requests key now clock later =
    let (_, agree) = runs-Agree limit requests 0 (λ _. []) [] clock (λ _ _ _. refl) in
    let kept = memory_after limit requests (λ _. []) key in
    rw (← agree key now later) (
      omega (
        arith,
        length-select (in_window now) kept,
        memory_bounded limit requests (λ _. []) (λ _. omega arith) key,
      ))
