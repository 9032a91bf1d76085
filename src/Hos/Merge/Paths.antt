-- ===== src/Hos/Merge/Paths.antt =====
-- What a merge does at each path.
use hcp.Prelude.{
  ◌≡◌, refl, ◌∙◌, String, Bool, false, not, ◌&&◌, ◌||◌, Option, none, some, List, [], ◌∷◌, arith,
  any, str_eq, eq_iff, if◌then◌else◌,
}
use hcp.Prelude.Table.{any-snoc}
use hcp.Json.{Json, json_eq}
use hcp.Json.Dict.{Dict, lookup, lookup-insert}
use hcp.Hos.Diff.{is_none, value, keys, has_path}
use hcp.Hos.Merge.{Clash, Merging, merge_path, merge_loop, merge_trees}

abbrev clashes_at : String → List Clash → Bool
clashes_at q cs = any (λ c. str_eq c.path q) cs

-- Both sides have a value at the path, and the values differ.
abbrev disagree : Json → Json → Bool
disagree ours theirs = not (is_none ours) && not (json_eq ours theirs)

-- The value that a merge gives a path that theirs has.
abbrev merged_value : Option Json → Json → Json → Option Json
merged_value kept ours theirs =
    if is_none ours then some theirs else if json_eq ours theirs then some ours else kept

-- The keys of a dict are distinct.
abbrev pub Distinct : Dict Json → Type 0
Distinct [] = Unit {0}
Distinct ((k, v) ∷ d) = (has_path k (keys d) ≡ false) × Distinct d

module _ (ours base : Dict Json) where
  merge_path-value :
      (q p : String) (v : Json) (m : Merging)
      → lookup q (merge_path ours base p v m).merged_tree ≡ (
          if str_eq p q
          then merged_value (lookup q m.merged_tree) (value ours p) v
          else lookup q m.merged_tree)
  unfolding merge_path
  merge_path-value q p v m =
      ground
        (arith, lookup-insert p q v m.merged_tree, lookup-insert p q (value ours p) m.merged_tree)

  merge_path-clash :
      (q p : String) (v : Json) (m : Merging)
      → clashes_at q (merge_path ours base p v m).conflicts
        ≡ (clashes_at q m.conflicts || (str_eq p q && disagree (value ours p) v))
  unfolding merge_path
  merge_path-clash q p v m = ground (
    arith,
    any-snoc (λ c. str_eq c.path q) m.conflicts
        (record { path = p; base = value base p; ours = value ours p; theirs = v }),
  )

  lookup-lacks : (q : String) (d : Dict Json) → has_path q (keys d) ≡ false → lookup q d ≡ none
  unfolding has_path any keys lookup
  lookup-lacks q [] h = refl
  lookup-lacks q ((k, v) ∷ d) h = ground (arith, lookup-lacks q d)

  lookup-cons :
      (q p : String) (v : Json) (d : Dict Json)
      → lookup q ((p, v) ∷ d) ≡ (if str_eq p q then some v else lookup q d)
  unfolding lookup
  lookup-cons q p v d = refl

  abbrev after : String → Dict Json → Merging → Option Json
  after q theirs m = elim (lookup q theirs) [
    | none ↦ lookup q m.merged_tree
    | some v ↦ merged_value (lookup q m.merged_tree) (value ours q) v
  ]

  value-cons :
      (q p : String) (v : Json) (theirs : Dict Json) (m : Merging)
      → Distinct ((p, v) ∷ theirs)
      → after q theirs (merge_path ours base p v m) ≡ after q ((p, v) ∷ theirs) m
  value-cons q p v theirs m d =
      ground (
        arith,
        eq_iff p q,
        merge_path-value q p v m,
        lookup-lacks q theirs,
        lookup-cons q p v theirs,
      )

  merge_loop-value :
      (q : String) (theirs : Dict Json) (m : Merging)
      → Distinct theirs
      → lookup q (merge_loop ours base theirs m).merged_tree ≡ after q theirs m
  unfolding merge_loop
  merge_loop-value q [] m d = unfold lookup in refl
  merge_loop-value q ((p, v) ∷ theirs) m d =
      merge_loop-value q theirs (merge_path ours base p v m) d.1 ∙ value-cons q p v theirs m d

  abbrev clashing : String → Dict Json → Merging → Bool
  clashing q theirs m =
      clashes_at q m.conflicts
      || elim (lookup q theirs) [ none ↦ false | some v ↦ disagree (value ours q) v ]

  clash-cons :
      (q p : String) (v : Json) (theirs : Dict Json) (m : Merging)
      → Distinct ((p, v) ∷ theirs)
      → clashing q theirs (merge_path ours base p v m) ≡ clashing q ((p, v) ∷ theirs) m
  clash-cons q p v theirs m d =
      ground (
        arith,
        eq_iff p q,
        merge_path-clash q p v m,
        lookup-lacks q theirs,
        lookup-cons q p v theirs,
      )

  merge_loop-clash :
      (q : String) (theirs : Dict Json) (m : Merging)
      → Distinct theirs
      → clashes_at q (merge_loop ours base theirs m).conflicts ≡ clashing q theirs m
  unfolding merge_loop
  merge_loop-clash q [] m d = unfold lookup in (ground arith)
  merge_loop-clash q ((p, v) ∷ theirs) m d =
      merge_loop-clash q theirs (merge_path ours base p v m) d.1 ∙ clash-cons q p v theirs m d

  -- At every path where ours has a value (neither missing nor `None`) the merged tree has it, and
  -- elsewhere it has that of theirs if theirs has the path, and else what ours has. The paths of
  -- theirs are distinct.
  pub merge_trees-value :
      (q : String) (theirs : Dict Json)
      → Distinct theirs
      → lookup q (merge_trees ours theirs base).merged_tree ≡ (
          if is_none (value ours q)
          then elim (lookup q theirs) [ none ↦ lookup q ours | some v ↦ some v ]
          else lookup q ours)
  unfolding merge_trees
  merge_trees-value q theirs d =
      merge_loop-value q theirs (record { merged_tree = ours; conflicts = [] }) d
      ∙ unfold value in (ground arith)

  -- The conflicts are at exactly the paths of theirs at which ours has a value that differs,
  -- whatever the base has there. The paths of theirs are distinct.
  pub merge_trees-clash :
      (q : String) (theirs : Dict Json)
      → Distinct theirs
      → any (λ c. str_eq c.path q) (merge_trees ours theirs base).conflicts
        ≡ elim (lookup q theirs) [
          | none ↦ false
          | some v ↦ not (is_none (value ours q)) && not (json_eq (value ours q) v)
        ]
  unfolding merge_trees
  merge_trees-clash q theirs d =
      merge_loop-clash q theirs (record { merged_tree = ours; conflicts = [] }) d
      ∙ unfold any in (ground arith)
