-- ===== src/Action.antt =====
-- Service methods as state-passing functions that may raise. The state outlives an error.
use hcp.Prelude.{◌∙◌, ◌≡◌, refl, Bool, Option, none, some, if◌then◌else◌}
use hcp.Db.{Db, Session, consistent}

-- The `ValueError`s of the services by their text, and the errors that are no `ValueError`.
pub data Error : Type 0 where
  project_not_found forbidden lock_not_found branch_not_found commit_not_found : Error
  parent_commit_not_found merge_not_found conflict_not_found invalid_resolution : Error
  validation_error bad_uuid invalid_transition component_identity_not_found unknown_event_type :
      Error
  integrity_error attribute_error key_error : Error
  -- A walk that the given rounds do not finish.
  out_of_fuel : Error

pub data Result {ℓ} (A : Type ℓ) : Type ℓ where
  ok : A → Result A
  err : Error → Result A

abbrev pub Action {ℓ} : Type ℓ → Type ℓ
Action A = Session → Result A × Session

module _ {ℓ} {A : Type ℓ} where
  abbrev pub pure : A → Action A
  pure a s = (ok a, s)

  abbrev pub raise : Error → Action A
  raise e s = (err e, s)

-- A computation that may raise and touches no state.
abbrev pub lift {ℓ} : {A : Type ℓ} → Result A → Action A
lift r s = (r, s)

module _ {ℓ κ} {A : Type ℓ} {B : Type κ} where
  abbrev pub bind : Result A × Session → (A → Action B) → Result B × Session
  bind (ok a, t) f = f a t
  bind (err e, t) f = (err e, t)

  infixl 5 ◌>>=◌ ◌>>◌
  abbrev pub ◌>>=◌ : Action A → (A → Action B) → Action B
  m >>= f = λ s. bind (m s) f

  abbrev pub ◌>>◌ : Action A → Action B → Action B
  m >> n = m >>= λ _. n

abbrev pub gets {ℓ} : {A : Type ℓ} → (Db → A) → Action A
gets f s = (ok (f s.current), s)

abbrev pub modify : (Db → Db) → Action (Unit {0})
modify f s = (ok tt, record s { current = f s.current })

abbrev pub guard : Bool → Error → Action (Unit {0})
guard b e = if b then pure tt else raise e

-- `x = self.db.scalar(...)`, then `if x is None: raise ValueError(e)`
abbrev pub or_raise {ℓ} : {A : Type ℓ} → Option A → Error → Action A
or_raise o e = elim o [ none ↦ raise e | some a ↦ pure a ]

-- `db.flush()`: the database refuses rows that break a constraint.
unfoldable pub flush : Action (Unit {0})
flush s = if consistent s.current then (ok tt, s) else (err integrity_error, s)

-- Inversion of a successful bind.
pub bind-eq-ok {ℓ κ} :
    {A : Type ℓ} {B : Type κ} (r : Result A × Session) (f : A → Action B) {b : B}
    → (bind r f).0 ≡ ok b
    → (a : A) × (t : Session) × (r ≡ (ok a, t)) × ((f a t).0 ≡ ok b)
bind-eq-ok (ok a, t) f h = (a, t, refl, h)
bind-eq-ok (err e, t) f h = cc

pub bind-eq {ℓ κ} :
    {A : Type ℓ} {B : Type κ} (r : Result A × Session) (f : A → Action B) {b : B} {u : Session}
    → bind r f ≡ (ok b, u)
    → (a : A) × (t : Session) × (r ≡ (ok a, t)) × (f a t ≡ (ok b, u))
bind-eq (ok a, t) f h = (a, t, refl, h)
bind-eq (err e, t) f h = cc

-- A method that leaves the state as it is.
pub bind-state {ℓ κ} :
    {A : Type ℓ} {B : Type κ} (s : Session) (r : Result A × Session) (f : A → Action B)
    → r.1 ≡ s
    → ((a : A) (t : Session) → (f a t).1 ≡ t)
    → (bind r f).1 ≡ s
bind-state s (ok a, t) f k h = h a t ∙ k
bind-state s (err e, t) f k h = k
