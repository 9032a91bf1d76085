-- ===== src/Objects/Runs.antt =====
-- The lives of a version: runs of accepted transitions.
use hcp.Prelude.{
  subst, Bool-cases, inl, inr, ◌≡◌, refl, String, true, false, some, List, [], ◌∷◌, arith, any,
  str_eq, eq_iff,
}
use hcp.Auth.{role_at_least}
use hcp.Objects.{validate_transition}

-- `Run a rs b`: a version goes from state `a` to `b`, and `rs` are the roles of those who moved it,
-- the last one first.
pub data Run : String → List String → String → Type 0 where
  stay : {a : String} → Run a [] a
  move :
      {a b c r min event : String} {rs : List String}
      → Run a rs b
      → validate_transition b c ≡ some (min, event)
      → role_at_least r min ≡ true
      → Run a (r ∷ rs) c

-- The only way to "released" is that of an approver, from "approved".
to_released :
    (b c min event : String)
    → validate_transition b c ≡ some (min, event)
    → str_eq c "released" ≡ true
    → (min ≡ "approver") × (str_eq b "approved" ≡ true)
unfolding validate_transition
to_released b c min event h e =
    let same : c ≡ "released" = (eq_iff c "released").0 e in
    let at_released : validate_transition b "released" ≡ some (min, event) =
      subst (λ t. validate_transition b t ≡ some (min, event)) same h in
    elim (Bool-cases (str_eq b "approved")) [
      | inl there ↦ (ground (arith, at_released), there)
      | inr other ↦ ground (arith, at_released)
    ]

released_by_approver :
    (a b : String) (rs : List String)
    → Run a rs b
    → str_eq b "released" ≡ true
    → str_eq a "released" ≡ false
    → any (λ r. role_at_least r "approver") rs ≡ true
unfolding any
released_by_approver a b [] stay eb ea = cc
released_by_approver a b (r ∷ rs) (move run v q) eb ea =
    let (approver, _) = to_released _ b _ _ v eb in
    let good : role_at_least r "approver" ≡ true =
      subst (λ m. role_at_least r m ≡ true) approver q in
    rw good refl

-- In a run of accepted transitions from draft to released, each made by a role that is enough for
-- it, some role is an approver's or an administrator's.
pub released_needs_approver :
    (rs : List String) → Run "draft" rs "released" → any (λ r. role_at_least r "approver") rs ≡ true
released_needs_approver rs run = released_by_approver "draft" "released" rs run refl refl
