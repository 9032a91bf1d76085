-- ===== src/Hos/Lca/Walks.antt =====
-- The first walk finds exactly the ancestors, and the second a common one whenever there is one.
use hcp.Prelude.{
  ℕ, zero, suc, ◌≡◌, refl, sym, subst, true, false, ◌||◌, Option, none, some, List, [], ◌∷◌, ◌++◌,
  arith, ◌==◌, ◌⊎◌, inl, inr, any, Bool-cases, Option-cases, ◌∙◌,
}
use mathlib.Core.Bool.{false≢true}
use hcp.Hos.Lca.{mem, ancestors, descend, find_lca}
use hcp.Hos.Lca.Ancestry.{Ancestor, self, up, Ancestor-trans, mem-append}

some_eq {ℓ} : {A : Type ℓ} {a b : A} → some a ≡ some b → a ≡ b
some_eq e = cc

mem-cons : (x y : ℕ) (ys : List ℕ) → mem x (y ∷ ys) ≡ (y == x || mem x ys)
unfolding mem any
mem-cons x y ys = refl

mem-nil : (x : ℕ) → mem x [] ≡ false
unfolding mem any
mem-nil x = refl

module _ (parents : ℕ → List ℕ) (start : ℕ) where
  -- The invariant of the first loop.
  record Inv (queue seen : List ℕ) : Type 0 where
    sound : (v : ℕ) → (mem v queue || mem v seen) ≡ true → Ancestor parents start v
    source : (mem start queue || mem start seen) ≡ true
    closed :
        (u v : ℕ)
        → mem u seen ≡ true
        → mem v (parents u) ≡ true
        → (mem v queue || mem v seen) ≡ true

  Inv-skip :
      (cid : ℕ) (queue seen : List ℕ)
      → mem cid seen ≡ true
      → Inv (cid ∷ queue) seen
      → Inv queue seen
  Inv-skip cid queue seen m h = record {
    sound = λ v q. h.sound v (ground (arith, mem-cons v cid queue));
    source = ground (arith, h.source, mem-cons start cid queue, m);
    closed = λ u v p q. ground (arith, h.closed u v, mem-cons v cid queue, m);
  }

  at_head : (cid : ℕ) (queue seen : List ℕ) → (mem cid (cid ∷ queue) || mem cid seen) ≡ true
  at_head cid queue seen = ground (arith, mem-cons cid cid queue)

  Inv-visit :
      (cid : ℕ) (queue seen : List ℕ)
      → Inv (cid ∷ queue) seen
      → Inv (queue ++ parents cid) (cid ∷ seen)
  Inv-visit cid queue seen h = record {
    sound = λ v q. ground (
      arith,
      h.sound v,
      mem-cons v cid queue,
      mem-cons v cid seen,
      mem-append v queue (parents cid),
      λ (m : mem v (parents cid) ≡ true).
          Ancestor-trans (h.sound cid (at_head cid queue seen)) (up m self),
    );
    source = ground (
      arith,
      h.source,
      mem-cons start cid queue,
      mem-cons start cid seen,
      mem-append start queue (parents cid),
    );
    closed = λ u v p q. ground (
      arith,
      h.closed u v,
      mem-cons v cid queue,
      mem-cons v cid seen,
      mem-cons u cid seen,
      mem-append v queue (parents cid),
    );
  }

  Inv-start : Inv (start ∷ []) []
  Inv-start = record {
    sound = λ v q.
        let same : start ≡ v = ground (arith, mem-cons v start [], mem-nil v) in
        subst (Ancestor parents start) same self;
    source = at_head start [] [];
    closed = λ u v p q. ground (arith, mem-nil u);
  }

  ancestors-Inv :
      (fuel : ℕ) (queue seen all : List ℕ)
      → Inv queue seen
      → ancestors parents fuel queue seen ≡ some all
      → Inv [] all
  unfolding ancestors
  ancestors-Inv fuel [] seen all h e = subst (Inv []) (some_eq e) h
  ancestors-Inv zero (cid ∷ queue) seen all h e = cc
  ancestors-Inv (suc fuel) (cid ∷ queue) seen all h e = elim (Bool-cases (mem cid seen)) [
    | inl old ↦
        ancestors-Inv fuel queue seen all (Inv-skip cid queue seen old h) (rw (old, ancestors) at e)
    | inr new ↦
        ancestors-Inv fuel (queue ++ parents cid) (cid ∷ seen) all (Inv-visit cid queue seen h)
          (rw (new, ancestors) at e)
  ]

  complete :
      (all : List ℕ)
      → Inv [] all
      → {u v : ℕ} → mem u all ≡ true
      → Ancestor parents u v
      → mem v all ≡ true
  unfolding mem any
  complete all h m self = m
  complete all h {u} m (up {p = p} q a) = complete all h (h.closed u p m q) a

mem-head : (x : ℕ) (ys : List ℕ) → mem x (x ∷ ys) ≡ true
mem-head x ys = ground (arith, mem-cons x x ys)

module _ (parents : ℕ → List ℕ) where
  spread :
      (b cid : ℕ) (queue : List ℕ)
      → ((v : ℕ) → mem v (cid ∷ queue) ≡ true → Ancestor parents b v)
      → (v : ℕ) → mem v (queue ++ parents cid) ≡ true
      → Ancestor parents b v
  spread b cid queue h v m = ground (
    arith,
    h v,
    mem-cons v cid queue,
    mem-append v queue (parents cid),
    λ (q : mem v (parents cid) ≡ true). Ancestor-trans (h cid (mem-head cid queue)) (up q self),
  )

  descend-found :
      (fuel b : ℕ) (queue seen : List ℕ) (c : ℕ)
      → ((v : ℕ) → mem v queue ≡ true → Ancestor parents b v)
      → descend parents fuel queue seen ≡ some (some c)
      → (mem c seen ≡ true) × Ancestor parents b c
  unfolding descend
  descend-found fuel b [] seen c h e = cc
  descend-found zero b (cid ∷ queue) seen c h e = cc
  descend-found (suc fuel) b (cid ∷ queue) seen c h e = elim (Bool-cases (mem cid seen)) [
    | inl old ↦
        let same : cid ≡ c = some_eq (some_eq (rw (old, descend) at e)) in
        subst (λ (u : ℕ). (mem u seen ≡ true) × Ancestor parents b u) same
          (old, h cid (mem-head cid queue))
    | inr new ↦
        descend-found fuel b (queue ++ parents cid) seen c (spread b cid queue h)
          (rw (new, descend) at e)
  ]

  -- Every ancestor of the head is missing from `seen`, if those of its parents are.
  from_head :
      {c v : ℕ} (seen : List ℕ)
      → mem c seen ≡ false
      → ((p : ℕ) → mem p (parents c) ≡ true → Ancestor parents p v → mem v seen ≡ false)
      → Ancestor parents c v
      → mem v seen ≡ false
  from_head seen new rest self = new
  from_head seen new rest (up {p = p} m a) = rest p m a

  later-or-head :
      (q cid : ℕ) (queue : List ℕ)
      → mem q (cid ∷ queue) ≡ true
      → (mem q (queue ++ parents cid) ≡ true) ⊎ (cid ≡ q)
  later-or-head q cid queue m =
      ground (arith, mem-cons q cid queue, mem-append q queue (parents cid))

  descend-none :
      (fuel : ℕ) (queue seen : List ℕ)
      → descend parents fuel queue seen ≡ some none
      → (q v : ℕ) → mem q queue ≡ true
      → Ancestor parents q v
      → mem v seen ≡ false
  unfolding descend
  descend-none fuel [] seen e q v m a = absurd (false≢true (rw mem-nil at m))
  descend-none zero (cid ∷ queue) seen e q v m a = cc
  descend-none (suc fuel) (cid ∷ queue) seen e q v m a = elim (Bool-cases (mem cid seen)) [
    | inl old ↦
        let e' : ◌≡◌ {A = Option (Option ℕ)} (some (some cid)) (some none) =
          rw (old, descend) at e in
        cc
    | inr new ↦
        let rest = descend-none fuel (queue ++ parents cid) seen (rw (new, descend) at e) in
        elim (later-or-head q cid queue m) [
          | inl later ↦ rest q v later a
          | inr same ↦
              from_head seen new
                (λ p n. rest p v (ground (arith, mem-append p queue (parents cid))))
                (subst (λ (u : ℕ). Ancestor parents u v) (sym same) a)
        ]
  ]

  only : (b v : ℕ) → mem v (b ∷ []) ≡ true → Ancestor parents b v
  only b v m =
      let same : b ≡ v = ground (arith, mem-cons v b [], mem-nil v) in
      subst (Ancestor parents b) same self

  find_lca-cases :
      (fuel a b : ℕ) (r : Option ℕ)
      → find_lca parents fuel a b ≡ some r
      → (all : List ℕ) × Inv parents a [] all × (descend parents fuel (b ∷ []) all ≡ some r)
  unfolding find_lca
  find_lca-cases fuel a b r e = elim (Option-cases (ancestors parents fuel (a ∷ []) [])) [
    | inl out ↦ let e' : ◌≡◌ {A = Option (Option ℕ)} none (some r) = rw (out, find_lca) at e in cc
    | inr (all, done) ↦ (
      all,
      ancestors-Inv parents a fuel (a ∷ []) [] all (Inv-start parents a) done,
      rw (done, find_lca) at e,
    )
  ]

  -- A commit that `find_lca` returns is an ancestor of both commits, where a commit counts as its
  -- own ancestor.
  pub find_lca-common :
      (fuel a b c : ℕ)
      → find_lca parents fuel a b ≡ some (some c)
      → Ancestor parents a c × Ancestor parents b c
  find_lca-common fuel a b c e =
      let (all, inv, found) = find_lca-cases fuel a b (some c) e in
      let (seen, from_b) = descend-found fuel b (b ∷ []) all c (only b) found in
      (inv.sound c (rw seen (ground arith)), from_b)

  -- If both loops of `find_lca` end and it returns `None`, the two commits have no common ancestor.
  pub find_lca-none :
      (fuel a b : ℕ)
      → find_lca parents fuel a b ≡ some none
      → (v : ℕ) → Ancestor parents a v
      → ¬ Ancestor parents b v
  find_lca-none fuel a b e v from_a from_b =
      let (all, inv, found) = find_lca-cases fuel a b none e in
      let inside = complete parents a all inv (ground (arith, inv.source, mem-nil a)) from_a in
      false≢true (sym (descend-none fuel (b ∷ []) all found b v (mem-head b []) from_b) ∙ inside)
