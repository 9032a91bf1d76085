-- ===== src/Hos/Lca.antt =====
-- `find_lca` of hos_version_control.py: two breadth-first walks up the parents of commits.
pub mod Ancestry
pub mod Walks
pub mod Terminates
use hcp.Prelude.{
  ℕ, zero, suc, Bool, true, false, ◌&&◌, Option, none, some, List, [], ◌∷◌, ◌++◌, map, ◌==◌, leb,
  any, select, sort_by, if◌then◌else◌,
}
use hcp.Db.{CommitParent}

-- x in xs
pub mem : ℕ → List ℕ → Bool
unfolding any
mem x xs = any (λ y. y == x) xs

unfoldable pub parent_order_le : CommitParent → CommitParent → Bool
parent_order_le a b = leb a.parent_order b.parent_order

-- _parent_ids
unfoldable pub parent_ids : List CommitParent → ℕ → List ℕ
unfolding parent_order_le
parent_ids rows commit_id =
    map (λ r. r.parent_commit_id)
      (sort_by parent_order_le (select (λ r. r.commit_id == commit_id) rows))

module _ (parents : ℕ → List ℕ) where
  -- The first loop: every commit that the queue leads to joins `ancestors_a`. `none` stands for a
  -- loop that fuel does not finish.
  pub ancestors : (fuel : ℕ) (queue ancestors_a : List ℕ) → Option (List ℕ)
  unfolding mem
  ancestors fuel [] ancestors_a = some ancestors_a
  ancestors zero (cid ∷ queue) ancestors_a = none
  ancestors (suc fuel) (cid ∷ queue) ancestors_a = elim (mem cid ancestors_a) [
    | true ↦ ancestors fuel queue ancestors_a
    | false ↦ ancestors fuel (queue ++ parents cid) (cid ∷ ancestors_a)
  ]

  -- The second loop: the first commit met that is in `ancestors_a`.
  pub descend : (fuel : ℕ) (queue_b ancestors_a : List ℕ) → Option (Option ℕ)
  unfolding mem
  descend fuel [] ancestors_a = some none
  descend zero (cid ∷ queue_b) ancestors_a = none
  descend (suc fuel) (cid ∷ queue_b) ancestors_a = elim (mem cid ancestors_a) [
    | true ↦ some (some cid)
    | false ↦ descend fuel (queue_b ++ parents cid) ancestors_a
  ]

  unfoldable pub find_lca : (fuel commit_a commit_b : ℕ) → Option (Option ℕ)
  unfolding ancestors descend
  find_lca fuel commit_a commit_b = elim (ancestors fuel (commit_a ∷ []) []) [
    | none ↦ none
    | some ancestors_a ↦ descend fuel (commit_b ∷ []) ancestors_a
  ]
