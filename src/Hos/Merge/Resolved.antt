-- ===== src/Hos/Merge/Resolved.antt =====
-- A resolved merge takes the resolution of every conflict.
use hcp.Prelude.{
  ◌≡◌, refl, ap, sym, any, ◌∙◌, String, true, false, ◌||◌, Option, none, some, [], ◌∷◌, arith,
  str_eq, eq_iff, if◌then◌else◌, Bool-cases, inl, inr, ◌⊎◌, subst,
}
use mathlib.Core.Bool.{false≢true}
use hcp.Json.{Json, json_eq}
use hcp.Json.Dict.{Dict, lookup, insert, lookup-insert}
use hcp.Db.{Conflict}
use hcp.Hos.Diff.{is_none, value, keys, has_path}
use hcp.Hos.Merge.{
  Resolution, resolved, value_from_resolution, Finalized, finalized, invalid_value,
  missing_conflict, invalid_resolution, key_error, take_resolution, resolution_at, finalize_path,
  and_then, finalize_loop,
}
use hcp.Hos.Merge.Paths.{Distinct}

finalized-eq : {a b : Dict Json} → finalized a ≡ finalized b → a ≡ b
finalized-eq h = cc

and_then-eq :
    (r : Finalized) (f : Dict Json → Finalized) {t : Dict Json}
    → and_then r f ≡ finalized t
    → (u : Dict Json) × (r ≡ finalized u) × (f u ≡ finalized t)
unfolding and_then
and_then-eq (finalized u) f e = (u, refl, e)
and_then-eq invalid_value f e = cc
and_then-eq missing_conflict f e = cc

take-eq :
    (p : String) (r : Resolution) (t : Dict Json) {u : Dict Json}
    → take_resolution p r t ≡ finalized u
    → (v : Json) × (r ≡ resolved v) × (insert p v t ≡ u)
unfolding take_resolution
take-eq p (resolved v) t e = (v, refl, finalized-eq e)
take-eq p invalid_resolution t e = cc
take-eq p key_error t e = cc

inserted :
    (q p : String) (r : Json) (t w : Dict Json) → insert p r t ≡ w → p ≡ q → lookup q w ≡ some r
inserted q p r t w put same =
    subst (λ (d : Dict Json). lookup q d ≡ some r) put
      (lookup-insert p q r t ∙ rw ((eq_iff p q).1 same))

module _ (by_path : String → Option Conflict) (ours : Dict Json) where
  path-none :
      (p : String) (v : Json) (t u : Dict Json)
      → finalize_path ours p v none t ≡ finalized u
      → (is_none (value ours p) ≡ true) × (insert p v t ≡ u)
        ⊎ ((is_none (value ours p) ≡ false) × (t ≡ u))
  unfolding finalize_path take_resolution resolution_at
  path-none p v t u e = elim (Bool-cases (is_none (value ours p))) [
    | inl gone ↦ inl (gone, finalized-eq (rw (gone, finalize_path) at e))
    | inr there ↦ elim (Bool-cases (json_eq (value ours p) v)) [
      | inl agree ↦ inr (there, finalized-eq (rw (there, agree, finalize_path) at e))
      | inr differ ↦
          let e' : missing_conflict ≡ finalized u = rw (there, differ, finalize_path) at e in cc
    ]
  ]

  -- A step at another path leaves this one alone.
  path-other :
      (q p : String) (v : Json) (found : Option Conflict) (t u : Dict Json)
      → finalize_path ours p v found t ≡ finalized u
      → str_eq p q ≡ false
      → lookup q u ≡ lookup q t
  unfolding finalize_path
  path-other q p v (some c) t u e n =
      let (r, _, same) = take-eq p (value_from_resolution c) t e in
      rw (← same) (ground (arith, lookup-insert p q r t))
  path-other q p v none t u e n = elim (path-none p v t u e) [
    | inl (_, same) ↦ rw (← same) (ground (arith, lookup-insert p q v t))
    | inr (_, same) ↦ ap (lookup q) (sym same)
  ]

  has_path-nil : (q : String) → has_path q (keys []) ≡ false
  unfolding has_path any keys
  has_path-nil q = refl

  has_path-cons :
      (q p : String) (v : Json) (d : Dict Json)
      → has_path q (keys ((p, v) ∷ d)) ≡ (str_eq p q || has_path q (keys d))
  unfolding has_path any keys
  has_path-cons q p v d = refl

  loop-other :
      (q : String) (theirs t u : Dict Json)
      → finalize_loop by_path ours theirs t ≡ finalized u
      → has_path q (keys theirs) ≡ false
      → lookup q u ≡ lookup q t
  unfolding finalize_loop
  loop-other q [] t u e n = ap (lookup q) (sym (finalized-eq e))
  loop-other q ((p, v) ∷ theirs) t u e n =
      let (w, here, rest) =
        and_then-eq (finalize_path ours p v (by_path p) t) (finalize_loop by_path ours theirs) e in
      loop-other q theirs w u rest (ground (arith, has_path-cons q p v theirs))
      ∙ path-other q p v (by_path p) t w here (ground (arith, has_path-cons q p v theirs))

  -- The step of the path itself.
  path-here :
      (q p : String) (v : Json) (c : Conflict) (t w u : Dict Json)
      → by_path q ≡ some c
      → finalize_path ours p v (by_path p) t ≡ finalized w
      → lookup q u ≡ lookup q w
      → p ≡ q
      → (r : Json) × (value_from_resolution c ≡ resolved r) × (lookup q u ≡ some r)
  unfolding finalize_path
  path-here q p v c t w u b here kept same =
      let (r, by_user, put) =
        take-eq p (value_from_resolution c) t (rw (ap by_path same ∙ b) at here) in
      (r, by_user, kept ∙ inserted q p r t w put same)

  -- When the loop of `_try_finalize_merge` ends without an error, every path of theirs that is in
  -- conflict has the value that its conflict was resolved to. The paths of theirs are distinct.
  pub finalize_loop-resolved :
      (q : String) (c : Conflict) (theirs t u : Dict Json)
      → Distinct theirs
      → has_path q (keys theirs) ≡ true
      → by_path q ≡ some c
      → finalize_loop by_path ours theirs t ≡ finalized u
      → (r : Json) × (value_from_resolution c ≡ resolved r) × (lookup q u ≡ some r)
  unfolding finalize_loop
  finalize_loop-resolved q c [] t u d m b e = absurd (false≢true (sym (has_path-nil q) ∙ m))
  finalize_loop-resolved q c ((p, v) ∷ theirs) t u d m b e =
      let (w, here, rest) =
        and_then-eq (finalize_path ours p v (by_path p) t) (finalize_loop by_path ours theirs) e in
      elim (Bool-cases (str_eq p q)) [
        | inl at_p ↦
            let same : p ≡ q = (eq_iff p q).0 at_p in
            path-here q p v c t w u b here (loop-other q theirs w u rest (rw same at (d.0))) same
        | inr n ↦
            finalize_loop-resolved q c theirs w u d.1 (ground (arith, has_path-cons q p v theirs)) b
              rest
      ]

  abbrev agreed : String → Dict Json → Dict Json → Option Json
  agreed q theirs t = elim (lookup q theirs) [
    | none ↦ lookup q t
    | some v ↦ if is_none (value ours q) then some v else lookup q t
  ]

  lookup-cons :
      (q p : String) (v : Json) (d : Dict Json)
      → lookup q ((p, v) ∷ d) ≡ (if str_eq p q then some v else lookup q d)
  unfolding lookup
  lookup-cons q p v d = refl

  lookup-lacks : (q : String) (d : Dict Json) → has_path q (keys d) ≡ false → lookup q d ≡ none
  unfolding has_path any keys lookup
  lookup-lacks q [] h = refl
  lookup-lacks q ((k, v) ∷ d) h = ground (arith, lookup-lacks q d)

  agreed-head :
      (q p : String) (v : Json) (theirs t w : Dict Json)
      → has_path p (keys theirs) ≡ false
      → by_path q ≡ none
      → finalize_path ours p v (by_path p) t ≡ finalized w
      → p ≡ q
      → agreed q theirs w ≡ agreed q ((p, v) ∷ theirs) t
  agreed-head q p v theirs t w fresh b here same =
      elim (path-none p v t w (rw (ap by_path same ∙ b) at here)) [
        | inl (gone, put) ↦ ground (
          arith,
          lookup-cons q p v theirs,
          lookup-lacks q theirs,
          inserted q p v t w put same,
          (eq_iff p q).1 same,
        )
        | inr (there, kept) ↦ ground (
          arith,
          lookup-cons q p v theirs,
          lookup-lacks q theirs,
          (eq_iff p q).1 same,
          ap (lookup q) kept,
        )
      ]

  agreed-tail :
      (q p : String) (v : Json) (theirs t w : Dict Json)
      → finalize_path ours p v (by_path p) t ≡ finalized w
      → str_eq p q ≡ false
      → agreed q theirs w ≡ agreed q ((p, v) ∷ theirs) t
  agreed-tail q p v theirs t w here n =
      ground (arith, lookup-cons q p v theirs, path-other q p v (by_path p) t w here n)

  -- When the loop of `_try_finalize_merge` ends without an error, a path that is in no conflict has
  -- the value that it had, or that of theirs where theirs has the path and ours has no value. The
  -- paths of theirs are distinct.
  pub finalize_loop-agreed :
      (q : String) (theirs t u : Dict Json)
      → Distinct theirs
      → by_path q ≡ none
      → finalize_loop by_path ours theirs t ≡ finalized u
      → lookup q u ≡ elim (lookup q theirs) [
        | none ↦ lookup q t
        | some v ↦ if is_none (value ours q) then some v else lookup q t
      ]
  unfolding finalize_loop
  finalize_loop-agreed q [] t u d b e = unfold lookup in (ap (lookup q) (sym (finalized-eq e)))
  finalize_loop-agreed q ((p, v) ∷ theirs) t u d b e =
      let (w, here, rest) =
        and_then-eq (finalize_path ours p v (by_path p) t) (finalize_loop by_path ours theirs) e in
      let ih = finalize_loop-agreed q theirs w u d.1 b rest in
      elim (Bool-cases (str_eq p q)) [
        | inl at_p ↦ ih ∙ agreed-head q p v theirs t w d.0 b here ((eq_iff p q).0 at_p)
        | inr n ↦ ih ∙ agreed-tail q p v theirs t w here n
      ]
