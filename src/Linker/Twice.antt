-- ===== src/Linker/Twice.antt =====
-- What MERGE does to what MERGE has left, for the queries of graph/linker.py.
use hcp.Prelude.{
  ◌≡◌, refl, ◌∙◌, ap, Bool, true, false, List, [], ◌∷◌, ◌++◌, arith, any, any-append, update_where,
  Bool-cases, inl, inr,
}
use hcp.Linker.{merge_node, merge_edge}

module _ {N : Type 0} (m : N → Bool) where
  any_last : (xs : List N) (x : N) → m x ≡ true → any m (xs ++ (x ∷ [])) ≡ true
  unfolding any
  any_last [] x h = rw h refl
  any_last (y ∷ xs) x h = rw (any_last xs x h) (ground arith)

  module _ (f : N → N) (same : (n : N) → m (f n) ≡ m n) (twice : (n : N) → f (f n) ≡ f n) where
    any-update_where : (xs : List N) → any m (update_where m f xs) ≡ any m xs
    unfolding any update_where
    any-update_where [] = refl
    any-update_where (x ∷ xs) = elim (Bool-cases (m x)) [
      | inl e ↦ rw (e, same x, e) refl
      | inr e ↦ rw (e, e) (any-update_where xs)
    ]

    update_where_twice :
        (xs : List N) → update_where m f (update_where m f xs) ≡ update_where m f xs
    unfolding update_where
    update_where_twice [] = refl
    update_where_twice (x ∷ xs) = elim (Bool-cases (m x)) [
      | inl e ↦ rw (e, same x, e, twice x) (ap (λ l. f x ∷ l) (update_where_twice xs))
      | inr e ↦ rw (e, e) (ap (λ l. x ∷ l) (update_where_twice xs))
    ]

    update_where_last :
        (xs : List N) (c : N)
        → any m xs ≡ false
        → f c ≡ c
        → update_where m f (xs ++ (c ∷ [])) ≡ xs ++ (c ∷ [])
    unfolding any update_where
    update_where_last [] c h k = elim (Bool-cases (m c)) [
      | inl e ↦ rw (e, k) refl
      | inr e ↦ rw e refl
    ]
    update_where_last (x ∷ xs) c h k = elim (Bool-cases (m x)) [
      | inl e ↦ absurd (cc (rw e at h))
      | inr e ↦ rw e (ap (λ l. x ∷ l) (update_where_last xs c (rw e at h) k))
    ]

    -- A node that is merged twice is merged once.
    pub merge_node_twice :
        (c : N) (xs : List N)
        → m c ≡ true
        → f c ≡ c
        → merge_node m f c (merge_node m f c xs) ≡ merge_node m f c xs
    unfolding merge_node
    merge_node_twice c xs here k = elim (Bool-cases (any m xs)) [
      | inl e ↦ rw (e, any-update_where xs, e) (update_where_twice xs)
      | inr e ↦ rw (e, any_last xs c here) (update_where_last xs c e k)
    ]

update_where_keep : {N : Type 0} (m : N → Bool) (xs : List N) → update_where m (λ n. n) xs ≡ xs
unfolding update_where
update_where_keep m [] = refl
update_where_keep m (x ∷ xs) = elim (Bool-cases (m x)) [
  | inl e ↦ rw e (ap (λ l. x ∷ l) (update_where_keep m xs))
  | inr e ↦ rw e (ap (λ l. x ∷ l) (update_where_keep m xs))
]

-- MERGE that changes no node that is there adds to the list or leaves it, as MERGE of an edge does.
pub merge_node_keep :
    {N : Type 0} (same : N → N → Bool) (c : N) (xs : List N)
    → merge_node (same c) (λ n. n) c xs ≡ merge_edge same c xs
unfolding merge_node merge_edge
merge_node_keep same c xs = elim (Bool-cases (any (same c) xs)) [
  | inl e ↦ rw e (update_where_keep (same c) xs)
  | inr e ↦ rw e refl
]

module _ {E : Type 0} (same : E → E → Bool) (reflexive : (e : E) → same e e ≡ true) where
  pub merge_edge_there : (e : E) (xs : List E) → any (same e) xs ≡ true → merge_edge same e xs ≡ xs
  unfolding merge_edge
  merge_edge_there e xs h = rw h refl

  any-merge_edge_self : (e : E) (xs : List E) → any (same e) (merge_edge same e xs) ≡ true
  unfolding merge_edge
  any-merge_edge_self e xs = elim (Bool-cases (any (same e) xs)) [
    | inl h ↦ rw h h
    | inr h ↦ rw h (any_last (same e) xs e (reflexive e))
  ]

  any-merge_edge :
      (p : E → Bool) (e : E) (xs : List E) → any p xs ≡ true → any p (merge_edge same e xs) ≡ true
  unfolding merge_edge
  any-merge_edge p e xs h = elim (Bool-cases (any (same e) xs)) [
    | inl k ↦ rw k h
    | inr k ↦ rw (k, any-append p xs (e ∷ []), h) refl
  ]

  pub merge_edge_twice :
      (e : E) (xs : List E) → merge_edge same e (merge_edge same e xs) ≡ merge_edge same e xs
  merge_edge_twice e xs = merge_edge_there e (merge_edge same e xs) (any-merge_edge_self e xs)

  abbrev pub merge_all : List E → List E → List E
  merge_all [] xs = xs
  merge_all (e ∷ es) xs = merge_all es (merge_edge same e xs)

  -- all of `es` are in `xs`
  abbrev Has : List E → List E → Type 0
  Has [] xs = Unit {0}
  Has (e ∷ es) xs = (any (same e) xs ≡ true) × Has es xs

  any-merge_all : (p : E → Bool) (es xs : List E) → any p xs ≡ true → any p (merge_all es xs) ≡ true
  any-merge_all p [] xs h = h
  any-merge_all p (e ∷ es) xs h =
      any-merge_all p es (merge_edge same e xs) (any-merge_edge p e xs h)

  merge_all-Has : (es xs : List E) → Has es (merge_all es xs)
  merge_all-Has [] xs = tt
  merge_all-Has (e ∷ es) xs = (
    any-merge_all (same e) es (merge_edge same e xs) (any-merge_edge_self e xs),
    merge_all-Has es (merge_edge same e xs),
  )

  merge_all_there : (es xs : List E) → Has es xs → merge_all es xs ≡ xs
  merge_all_there [] xs h = refl
  merge_all_there (e ∷ es) xs (here, rest) =
      ap (merge_all es) (merge_edge_there e xs here) ∙ merge_all_there es xs rest

  pub merge_all_twice : (es xs : List E) → merge_all es (merge_all es xs) ≡ merge_all es xs
  merge_all_twice es xs = merge_all_there es (merge_all es xs) (merge_all-Has es xs)
