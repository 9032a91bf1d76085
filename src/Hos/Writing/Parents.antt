-- ===== src/Hos/Writing/Parents.antt =====
-- The parent rows of a commit, and what `_parent_ids` reads back.
use hcp.Prelude.{
  ◌∙◌, ==_refl, ℕ, ◌+◌, ◌≤◌, ◌≡◌, refl, ap, Bool, false, List, [], ◌∷◌, ◌++◌, map, arith, ◌==◌, any,
  select, insert_by, sort_by,
}
use hcp.Prelude.Table.{unique}
use hcp.Db.{CommitParent, parent_clash}
use hcp.Hos.Lca.{parent_ids, parent_order_le}
use hcp.Hos.Writing.{parent_rows}

select-append {ℓ} :
    {A : Type ℓ} (p : A → Bool) (xs ys : List A) → select p (xs ++ ys) ≡ select p xs ++ select p ys
unfolding select
select-append p [] ys = refl
select-append p (x ∷ xs) ys = ground (arith, select-append p xs ys)

module _ (org commit : ℕ) where
  select-parent_rows :
      (parents : List ℕ) (idx : ℕ)
      → select (λ r. r.commit_id == commit) (parent_rows org commit parents idx)
        ≡ parent_rows org commit parents idx
  unfolding select parent_rows
  select-parent_rows [] idx = refl
  select-parent_rows (p ∷ ps) idx = ground (arith, select-parent_rows ps (idx + 1))

  insert-parent_rows :
      (r : CommitParent) (parents : List ℕ) (idx : ℕ)
      → r.parent_order ≤ idx
      → insert_by parent_order_le r (parent_rows org commit parents idx)
        ≡ r ∷ parent_rows org commit parents idx
  unfolding insert_by parent_rows parent_order_le
  insert-parent_rows r [] idx h = refl
  insert-parent_rows r (p ∷ ps) idx h = ground arith

  sort-parent_rows :
      (parents : List ℕ) (idx : ℕ)
      → sort_by parent_order_le (parent_rows org commit parents idx)
        ≡ parent_rows org commit parents idx
  unfolding sort_by parent_rows
  sort-parent_rows [] idx = refl
  sort-parent_rows (p ∷ ps) idx =
      rw (sort-parent_rows ps (idx + 1)) (insert-parent_rows _ ps (idx + 1) (omega arith))

  map-parent_rows :
      (parents : List ℕ) (idx : ℕ)
      → map (λ r. r.parent_commit_id) (parent_rows org commit parents idx) ≡ parents
  unfolding parent_rows
  map-parent_rows [] idx = refl
  map-parent_rows (p ∷ ps) idx = ap (λ ids. p ∷ ids) (map-parent_rows ps (idx + 1))

  -- What is written as the parents of a commit that has none is what `_parent_ids` reads.
  pub parent_ids-parent_rows :
      (rows : List CommitParent) (parents : List ℕ)
      → select (λ r. r.commit_id == commit) rows ≡ []
      → parent_ids (rows ++ parent_rows org commit parents 0) commit ≡ parents
  unfolding parent_ids
  parent_ids-parent_rows rows parents free =
      rw
        (select-append (λ (r : CommitParent). r.commit_id == commit) rows
          (parent_rows org commit parents 0))
        (rw free (
          rw (select-parent_rows parents 0)
            (rw (sort-parent_rows parents 0) (map-parent_rows parents 0))))

-- n, n + 1, ...: as many as there are in the list
abbrev pub numbered : ℕ → List ℕ → List ℕ
numbered n [] = []
numbered n (x ∷ xs) = n ∷ numbered (n + 1) xs

order-parent_rows :
    (org commit : ℕ) (parents : List ℕ) (idx : ℕ)
    → map (λ r. r.parent_order) (parent_rows org commit parents idx) ≡ numbered idx parents
unfolding parent_rows
order-parent_rows org commit [] idx = refl
order-parent_rows org commit (p ∷ ps) idx =
    ap (λ ns. idx ∷ ns) (order-parent_rows org commit ps (idx + 1))

-- The rows of a commit that had none are numbered from 0, so no two of them tie.
pub numbered_rows :
    (org commit : ℕ) (rows : List CommitParent) (parents : List ℕ)
    → select (λ r. r.commit_id == commit) rows ≡ []
    → map
        (λ r. r.parent_order)
        (select (λ r. r.commit_id == commit) (rows ++ parent_rows org commit parents 0))
      ≡ numbered 0 parents
numbered_rows org commit rows parents free =
    rw
      (select-append (λ (r : CommitParent). r.commit_id == commit) rows
        (parent_rows org commit parents 0))
      (rw free
        (rw (select-parent_rows org commit parents 0) (order-parent_rows org commit parents 0)))

parent_clash-rows :
    (org commit p idx next : ℕ) (ps : List ℕ)
    → any
        (parent_clash
          (record { org_id = org; commit_id = commit; parent_commit_id = p; parent_order = idx }))
        (parent_rows org commit ps next)
      ≡ any (λ q. p == q) ps
unfolding any parent_clash parent_rows
parent_clash-rows org commit p idx next [] = refl
parent_clash-rows org commit p idx next (q ∷ ps) =
    ground (arith, ==_refl commit, parent_clash-rows org commit p idx (next + 1) ps)

-- The rows of parents clash if a parent is named twice.
unique-parent_rows :
    (org commit idx : ℕ) (ps : List ℕ)
    → unique parent_clash (parent_rows org commit ps idx) ≡ unique ◌==◌ ps
unfolding unique parent_rows
unique-parent_rows org commit idx [] = refl
unique-parent_rows org commit idx (p ∷ ps) = ground (
  arith,
  parent_clash-rows org commit p idx (idx + 1) ps,
  unique-parent_rows org commit (idx + 1) ps,
)

unique-behind :
    (rows more : List CommitParent)
    → unique parent_clash more ≡ false
    → unique parent_clash (rows ++ more) ≡ false
unfolding unique
unique-behind [] more h = h
unique-behind (r ∷ rows) more h = ground (arith, unique-behind rows more h)

-- Whatever rows there are.
pub unique-repeated :
    (org commit : ℕ) (rows : List CommitParent) (parents : List ℕ)
    → unique ◌==◌ parents ≡ false
    → unique parent_clash (rows ++ parent_rows org commit parents 0) ≡ false
unique-repeated org commit rows parents h =
    unique-behind rows _ (unique-parent_rows org commit 0 parents ∙ h)
