-- ===== src/Examples/Trees.antt =====
-- State maps and their merges, at concrete trees.
use hcp.Prelude.{◌≡◌, refl, String, true, Option, some, [], ◌∷◌, any, str_eq, first_where}
use hcp.Json.{Json, null, str, obj, end, field, json_eq}
use hcp.Json.Dict.{Dict, lookup}
use hcp.Db.{Conflict}
use hcp.Hos.Diff.{is_none, value, has_path, keys, diff_maps, modified}
use hcp.Hos.Diff.Exact.{entries, diff_exact}
use hcp.Hos.Merge.{merge_trees, value_from_resolution, resolved, finalize_loop}
use hcp.Hos.Merge.Paths.{Distinct, merge_trees-value, merge_trees-clash}
use hcp.Hos.Merge.Resolved.{finalize_loop-resolved}

abbrev ours : Dict Json
ours = ("a", str "1") ∷ ("b", str "2") ∷ []

abbrev theirs : Dict Json
theirs = ("b", str "3") ∷ ("c", str "4") ∷ []

theirs-Distinct : Distinct theirs
unfolding any has_path keys
theirs-Distinct = (refl, (refl, tt))

diff_exact_example :
    entries "b" (diff_maps "tree" ours theirs)
    ≡ record {
      path = "b";
      change_type = modified;
      from_value = str "2";
      to_value = str "3";
      model = "tree";
    }
      ∷ []
unfolding keys hcp.Prelude.Table.unique any value json_eq
diff_exact_example = diff_exact "tree" "b" ours theirs refl refl

merge_trees-value_example : lookup "c" (merge_trees ours theirs []).merged_tree ≡ some (str "4")
unfolding is_none value
merge_trees-value_example = merge_trees-value ours [] "c" theirs theirs-Distinct

merge_trees-clash_example :
    any (λ c. str_eq c.path "b") (merge_trees ours theirs []).conflicts ≡ true
unfolding is_none value json_eq
merge_trees-clash_example = merge_trees-clash ours [] "b" theirs theirs-Distinct

abbrev conflict : Conflict
conflict = record {
  id = 1;
  org_id = 1;
  project_id = 1;
  merge_id = 1;
  path = "b";
  base = null;
  ours = str "2";
  theirs = str "3";
  resolution = some (field "take" (str "theirs") end);
  status = "resolved";
  resolved_at = some 5;
  resolved_by = some 1;
}

abbrev conflicts : String → Option Conflict
conflicts path = lookup path (("b", conflict) ∷ [])

finalize_loop-resolved_example :
    (r : Json) × (value_from_resolution conflict ≡ resolved r)
    × (lookup "b" (("a", str "1") ∷ ("b", str "3") ∷ ("c", str "4") ∷ []) ≡ some r)
unfolding finalize_loop has_path any keys json_eq hcp.Json.get hcp.Json.Dict.insert
finalize_loop-resolved_example =
    finalize_loop-resolved conflicts ours "b" conflict theirs ours
      (("a", str "1") ∷ ("b", str "3") ∷ ("c", str "4") ∷ []) theirs-Distinct refl refl refl
