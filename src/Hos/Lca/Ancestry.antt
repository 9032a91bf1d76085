-- ===== src/Hos/Lca/Ancestry.antt =====
-- Ancestors as an inductive relation: what the walks of `find_lca` are measured by.
use hcp.Prelude.{ℕ, ◌≡◌, true, List, ◌++◌, ◌||◌, any-append, ◌==◌}
use hcp.Hos.Lca.{mem}

-- `a` is the commit `c`, or an ancestor of one of its parents.
pub data Ancestor (parents : ℕ → List ℕ) : ℕ → ℕ → Type 0 where
  self : {c : ℕ} → Ancestor parents c c
  up : {c p a : ℕ} → mem p (parents c) ≡ true → Ancestor parents p a → Ancestor parents c a

pub Ancestor-trans :
    {parents : ℕ → List ℕ} {c p a : ℕ}
    → Ancestor parents c p
    → Ancestor parents p a
    → Ancestor parents c a
Ancestor-trans self q = q
Ancestor-trans (up m p) q = up m (Ancestor-trans p q)

pub mem-append : (x : ℕ) (xs ys : List ℕ) → mem x (xs ++ ys) ≡ (mem x xs || mem x ys)
unfolding mem
mem-append x xs ys = any-append (λ y. y == x) xs ys
