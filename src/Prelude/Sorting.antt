-- ===== src/Prelude/Sorting.antt =====
-- Sorting by a total preorder commutes with selecting rows.
use mathlib.Core.Path.{◌≡◌, refl, ◌∙◌}
use mathlib.Core.Bool.{Bool, true, ◌||◌, ◌&&◌}
use mathlib.Core.List.{List, [], ◌∷◌}
use native.Mathlib.Omega.{arith}
use hcp.Prelude.Tests.{if◌then◌else◌}
use hcp.Prelude.Lists.{any, select, insert_by, sort_by}

module _ {ℓ} {A : Type ℓ} (le : A → A → Bool)
    (trans : (a b c : A) → le a b ≡ true → le b c ≡ true → le a c ≡ true)
    (total : (a b : A) → (le a b || le b a) ≡ true) where
  -- `x` stands below every row.
  below : A → List A → Bool
  below x [] = true
  below x (y ∷ ys) = le x y && below x ys

  sorted : List A → Bool
  sorted [] = true
  sorted (x ∷ xs) = below x xs && sorted xs

  below_trans : (x y : A) (ys : List A) → le x y ≡ true → below y ys ≡ true → below x ys ≡ true
  unfolding below
  below_trans x y [] h b = refl
  below_trans x y (z ∷ zs) h b = ground (arith, below_trans x y zs, trans x y z)

  below-insert :
      (x y : A) (ys : List A)
      → le x y ≡ true
      → below x ys ≡ true
      → below x (insert_by le y ys) ≡ true
  unfolding below insert_by
  below-insert x y [] h b = ground arith
  below-insert x y (z ∷ zs) h b = ground (arith, below-insert x y zs)

  sorted-insert : (x : A) (ys : List A) → sorted ys ≡ true → sorted (insert_by le x ys) ≡ true
  unfolding sorted below insert_by
  sorted-insert x [] s = refl
  sorted-insert x (y ∷ ys) s =
      ground (arith, sorted-insert x ys, below_trans x y ys, below-insert y x ys, total x y)

  sorted-sort_by : (xs : List A) → sorted (sort_by le xs) ≡ true
  unfolding sorted sort_by
  sorted-sort_by [] = refl
  sorted-sort_by (x ∷ xs) = sorted-insert x (sort_by le xs) (sorted-sort_by xs)

  module _ (p : A → Bool) where
    insert-below : (x : A) (ys : List A) → below x ys ≡ true → insert_by le x ys ≡ x ∷ ys
    unfolding below insert_by
    insert-below x [] b = refl
    insert-below x (y ∷ ys) b = ground arith

    below-select : (x : A) (ys : List A) → below x ys ≡ true → below x (select p ys) ≡ true
    unfolding below select
    below-select x [] b = refl
    below-select x (y ∷ ys) b = ground (arith, below-select x ys)

    select-insert :
        (x : A) (ys : List A)
        → sorted ys ≡ true
        → select p (insert_by le x ys) ≡ (if p x then insert_by le x (select p ys) else select p ys)
    unfolding sorted insert_by select
    select-insert x [] s = refl
    select-insert x (y ∷ ys) s = ground (
      arith,
      select-insert x ys,
      below-select y ys,
      below-select x ys,
      below_trans x y ys,
      insert-below x (select p ys),
    )

    -- Rows may be selected before or after the sort.
    pub select-sort_by : (xs : List A) → select p (sort_by le xs) ≡ sort_by le (select p xs)
    unfolding sort_by select
    select-sort_by [] = refl
    select-sort_by (x ∷ xs) =
        select-insert x (sort_by le xs) (sorted-sort_by xs) ∙ ground (arith, select-sort_by xs)

module _ {ℓ} {A : Type ℓ} (le : A → A → Bool) (p : A → Bool) where
  any-insert_by : (x : A) (ys : List A) → any p (insert_by le x ys) ≡ (p x || any p ys)
  unfolding any insert_by
  any-insert_by x [] = refl
  any-insert_by x (y ∷ ys) = ground (arith, any-insert_by x ys)

  -- Sorting loses no row and adds none.
  pub any-sort_by : (xs : List A) → any p (sort_by le xs) ≡ any p xs
  unfolding any sort_by
  any-sort_by [] = refl
  any-sort_by (x ∷ xs) = any-insert_by x (sort_by le xs) ∙ ground (arith, any-sort_by xs)
