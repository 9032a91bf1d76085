-- ===== src/Prelude/Table.antt =====
-- Tables as lists of rows, under the unique constraints that they declare.
use mathlib.Core.Path.{◌≡◌, refl, ap}
use mathlib.Core.Bool.{Bool, true, false, not, ◌||◌, ◌&&◌}
use mathlib.Core.Option.{none, some}
use mathlib.Core.List.{List, [], ◌∷◌, ◌++◌}
use native.Mathlib.Omega.{arith}
use mathlib.Core.Logic.{inl, inr}
use hcp.Prelude.Tests.{if◌then◌else◌, Bool-cases}
use hcp.Prelude.Lists.{Listed, any, every, select, first_where, update_where}

module _ {ℓ} {A : Type ℓ} where
  -- No two rows clash.
  unfoldable pub unique : (A → A → Bool) → List A → Bool
  unfolding any
  unique clash [] = true
  unique clash (x ∷ xs) = not (any (clash x) xs) && unique clash xs

  pub any-snoc : (p : A → Bool) (xs : List A) (x : A) → any p (xs ++ x ∷ []) ≡ (any p xs || p x)
  unfolding any
  any-snoc p [] x = ground arith
  any-snoc p (y ∷ xs) x = ground (arith, any-snoc p xs x)

  pub every-snoc :
      (p : A → Bool) (xs : List A) (x : A) → every p (xs ++ x ∷ []) ≡ (every p xs && p x)
  unfolding every
  every-snoc p [] x = ground arith
  every-snoc p (y ∷ xs) x = ground (arith, every-snoc p xs x)

  -- A row can be added exactly when no row clashes with it.
  pub unique-snoc :
      (clash : A → A → Bool) (xs : List A) (x : A)
      → unique clash (xs ++ x ∷ []) ≡ (unique clash xs && not (any (λ y. clash y x) xs))
  unfolding unique
  unique-snoc clash [] x = refl
  unique-snoc clash (y ∷ xs) x = ground (arith, unique-snoc clash xs x, any-snoc (clash y) xs x)

  any-select : (p q : A → Bool) (xs : List A) → any p xs ≡ false → any p (select q xs) ≡ false
  unfolding any select
  any-select p q [] h = refl
  any-select p q (x ∷ xs) h = ground (arith, any-select p q xs)

  pub unique-select :
      (clash : A → A → Bool) (q : A → Bool) (xs : List A)
      → unique clash xs ≡ true
      → unique clash (select q xs) ≡ true
  unfolding unique select
  unique-select clash q [] h = refl
  unique-select clash q (x ∷ xs) h =
      ground (arith, any-select (clash x) q xs, unique-select clash q xs)

  -- Rewriting that no clash can see.
  module _ (clash : A → A → Bool) (q : A → Bool) (f : A → A)
      (left : (x y : A) → clash (f x) y ≡ clash x y)
      (right : (x y : A) → clash x (f y) ≡ clash x y) where
    any-update_where :
        (x : A) (xs : List A) → any (clash x) (update_where q f xs) ≡ any (clash x) xs
    unfolding any update_where
    any-update_where x [] = refl
    any-update_where x (y ∷ xs) = ground (arith, any-update_where x xs, right x y)

    any_of_image : (x : A) (xs : List A) → any (clash (f x)) xs ≡ any (clash x) xs
    unfolding any
    any_of_image x [] = refl
    any_of_image x (y ∷ xs) = ground (arith, any_of_image x xs, left x y)

    pub unique-update_where : (xs : List A) → unique clash (update_where q f xs) ≡ unique clash xs
    unfolding unique update_where
    unique-update_where [] = refl
    unique-update_where (x ∷ xs) = ground (
      arith,
      unique-update_where xs,
      any-update_where x xs,
      any-update_where (f x) xs,
      any_of_image x xs,
    )

  pub first_where_sound :
      (p : A → Bool) (xs : List A) {x : A} → first_where p xs ≡ some x → p x ≡ true
  unfolding first_where
  first_where_sound p [] h = ground arith
  first_where_sound p (y ∷ xs) {x} h = ground (arith, first_where_sound p xs {x = x})

  pub any_of_first_where :
      (p : A → Bool) (xs : List A) {x : A} → first_where p xs ≡ some x → any p xs ≡ true
  unfolding first_where any
  any_of_first_where p [] h = ground arith
  any_of_first_where p (y ∷ xs) {x} h = ground (arith, any_of_first_where p xs {x = x})

  pub any_of_first_where-none :
      (p : A → Bool) (xs : List A) → first_where p xs ≡ none → any p xs ≡ false
  unfolding first_where any
  any_of_first_where-none p [] h = refl
  any_of_first_where-none p (y ∷ xs) h = ground (arith, any_of_first_where-none p xs)

  pub any_or : (p q : A → Bool) (xs : List A) → any (λ x. p x || q x) xs ≡ (any p xs || any q xs)
  unfolding any
  any_or p q [] = refl
  any_or p q (x ∷ xs) = ground (arith, any_or p q xs)

  pub first_where-snoc :
      (p : A → Bool) (xs : List A) (x : A)
      → first_where p xs ≡ none
      → p x ≡ true
      → first_where p (xs ++ x ∷ []) ≡ some x
  unfolding first_where
  first_where-snoc p [] x n h = rw h
  first_where-snoc p (y ∷ xs) x n h = ground (arith, first_where-snoc p xs x)

  pub select_both :
      (p q r : A → Bool) (xs : List A)
      → ((x : A) → (p x && q x) ≡ r x)
      → select q (select p xs) ≡ select r xs
  unfolding select
  select_both p q r [] h = refl
  select_both p q r (x ∷ xs) h = ground (arith, h x, select_both p q r xs h)

  test_of_rewritten :
      (p q : A → Bool) (f : A → A) (y : A) → p (f y) ≡ p y → p (if q y then f y else y) ≡ p y
  test_of_rewritten p q f y same = elim (Bool-cases (q y)) [
    | inl hit ↦ rw hit same
    | inr miss ↦ rw miss refl
  ]

  some-eq : {a b : A} → some a ≡ some b → a ≡ b
  some-eq e = cc

  -- A rewriting that the test cannot see rewrites what is found.
  pub first_where-update_where :
      (p q : A → Bool) (f : A → A) (xs : List A) {x : A}
      → ((y : A) → p (f y) ≡ p y)
      → first_where p xs ≡ some x
      → first_where p (update_where q f xs) ≡ some (if q x then f x else x)
  unfolding first_where update_where
  first_where-update_where p q f [] same h = ground arith
  first_where-update_where p q f (y ∷ xs) {x} same h = elim (Bool-cases (p y)) [
    | inl here ↦
        let e : y ≡ x = some-eq (rw here at h) in
        rw (test_of_rewritten p q f y (same y))
          (rw here (ap (λ (z : A). some (if q z then f z else z)) e))
    | inr other ↦
        rw (test_of_rewritten p q f y (same y))
          (rw other (first_where-update_where p q f xs same (rw other at h)))
  ]

-- A rewriting that the test cannot see leaves what passes.
pub any-rewritten {ℓ} :
    {A : Type ℓ} (p q : A → Bool) (f : A → A) (xs : List A)
    → ((y : A) → p (f y) ≡ p y)
    → any p (update_where q f xs) ≡ any p xs
unfolding any update_where
any-rewritten p q f [] same = refl
any-rewritten p q f (x ∷ xs) same = ground (arith, same x, any-rewritten p q f xs same)

-- What is found is in the list.
pub first_where-Listed :
    {A : Type 0} (p : A → Bool) (xs : List A) (x : A) → first_where p xs ≡ some x → Listed x xs
unfolding first_where
first_where-Listed p [] x h = absurd (cc h)
first_where-Listed p (y ∷ xs) x h = elim (Bool-cases (p y)) [
  | inl here ↦ inl (some-eq (rw here at h))
  | inr other ↦ inr (first_where-Listed p xs x (rw other at h))
]
