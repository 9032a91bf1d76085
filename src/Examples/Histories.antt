-- ===== src/Examples/Histories.antt =====
-- A small history of commits: 4 merges 2 and 3, which both start from 1.
use hcp.Prelude.{◌≡◌, refl, ℕ, Option, some, List, [], ◌∷◌, arith, any, if◌then◌else◌, ◌==◌}
use hcp.Hos.Lca.{find_lca}
use hcp.Hos.Lca.Ancestry.{Ancestor, self, up}
use hcp.Hos.Lca.Walks.{find_lca-common, find_lca-none}
use hcp.Hos.Lca.Terminates.{total, IsWeighted, find_lca_ends}

abbrev history : ℕ → List ℕ
history c = if c == 4 then 2 ∷ 3 ∷ [] else if c == 3 then 1 ∷ [] else if c == 2 then 1 ∷ [] else []

abbrev weight : ℕ → ℕ
weight c = if c == 4 then 7 else if c == 3 then 3 else if c == 2 then 3 else 1

history-IsWeighted : IsWeighted history weight
unfolding total
history-IsWeighted = record { heavier = λ c. ground arith }

find_lca-common_example : Ancestor history 2 1 × Ancestor history 3 1
unfolding find_lca any
find_lca-common_example = find_lca-common history 9 2 3 1 refl

find_lca-none_example : ¬ Ancestor history 5 1
unfolding find_lca any
find_lca-none_example = find_lca-none history 9 4 5 refl 1 (up {p = 2} refl (up {p = 1} refl self))

find_lca_ends_example : (r : Option ℕ) × (find_lca history 7 4 2 ≡ some r)
find_lca_ends_example =
    find_lca_ends history weight history-IsWeighted 7 4 2 (omega arith) (omega arith)
