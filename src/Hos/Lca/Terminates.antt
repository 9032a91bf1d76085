-- ===== src/Hos/Lca/Terminates.antt =====
-- Both walks end on a history without cycles.
use hcp.Prelude.{
  ℕ, zero, suc, ◌+◌, ◌≤◌, ◌<◌, ◌≡◌, refl, Option, none, some, List, [], ◌∷◌, ◌++◌, arith,
  Bool-cases, inl, inr,
}
use hcp.Hos.Lca.{mem, ancestors, descend, find_lca}

-- The weight of a queue.
unfoldable pub total : (ℕ → ℕ) → List ℕ → ℕ
total w [] = 0
total w (c ∷ cs) = w c + total w cs

total-append : (w : ℕ → ℕ) (xs ys : List ℕ) → total w (xs ++ ys) ≡ total w xs + total w ys
unfolding total
total-append w [] ys = omega arith
total-append w (x ∷ xs) ys = omega (arith, total-append w xs ys)

-- A commit weighs more than all its parents together. Such a weight is there exactly if no walk up
-- the parents is infinite: take the number of walks from the commit.
pub record IsWeighted (parents : ℕ → List ℕ) (w : ℕ → ℕ) : Type 0 where
  pub heavier : (c : ℕ) → total w (parents c) < w c

module _ (parents : ℕ → List ℕ) (w : ℕ → ℕ) (weighted : IsWeighted parents w) where
  ancestors_ends :
      (fuel : ℕ) (queue seen : List ℕ)
      → total w queue ≤ fuel
      → (all : List ℕ) × (ancestors parents fuel queue seen ≡ some all)
  unfolding ancestors total
  ancestors_ends fuel [] seen h = (seen, refl)
  ancestors_ends zero (cid ∷ queue) seen h = absurd (omega (arith, weighted.heavier cid))
  ancestors_ends (suc fuel) (cid ∷ queue) seen h = elim (Bool-cases (mem cid seen)) [
    | inl old ↦
        rw (old, ancestors) (ancestors_ends fuel queue seen (omega (arith, weighted.heavier cid)))
    | inr new ↦
        rw (new, ancestors)
          (ancestors_ends fuel (queue ++ parents cid) (cid ∷ seen)
            (omega (arith, weighted.heavier cid, total-append w queue (parents cid))))
  ]

  descend_ends :
      (fuel : ℕ) (queue seen : List ℕ)
      → total w queue ≤ fuel
      → (r : Option ℕ) × (descend parents fuel queue seen ≡ some r)
  unfolding descend total
  descend_ends fuel [] seen h = (none, refl)
  descend_ends zero (cid ∷ queue) seen h = absurd (omega (arith, weighted.heavier cid))
  descend_ends (suc fuel) (cid ∷ queue) seen h = elim (Bool-cases (mem cid seen)) [
    | inl old ↦ (some cid, rw (old, descend) refl)
    | inr new ↦
        rw (new, descend)
          (descend_ends fuel (queue ++ parents cid) seen
            (omega (arith, weighted.heavier cid, total-append w queue (parents cid))))
  ]

  -- On a history with a weight, in which every commit is heavier than all its parents together,
  -- both loops of `find_lca` end within as many rounds as the heavier of the two commits weighs.
  pub find_lca_ends :
      (fuel a b : ℕ)
      → w a ≤ fuel
      → w b ≤ fuel
      → (r : Option ℕ) × (find_lca parents fuel a b ≡ some r)
  unfolding find_lca total
  find_lca_ends fuel a b ha hb =
      let (all, done) = ancestors_ends fuel (a ∷ []) [] (omega arith) in
      rw (done, find_lca) (descend_ends fuel (b ∷ []) all (omega arith))
