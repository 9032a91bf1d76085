-- ===== src/Hos/Merge.antt =====
-- The tree merges of hos_version_control.py: the loop of `merge`, and the loop of
-- `_try_finalize_merge` with the resolutions of the conflicts.
pub mod Paths
pub mod Resolved
use hcp.Prelude.{
  ℕ, String, Bool, true, false, not, Option, none, some, List, [], ◌∷◌, ◌++◌, str_eq, if◌then◌else◌,
  first_where,
}
use hcp.Json.{Json, null, str, Fields, end, get_field, get, json_eq}
use hcp.Json.Dict.{Dict, lookup, insert}
use hcp.Db.{Conflict}
use hcp.Hos.Diff.{is_none, value}

-- (path, base, ours, theirs)
pub record Clash : Type 0 where
  pub path : String
  pub base : Json
  pub ours : Json
  pub theirs : Json

pub record Merging : Type 0 where
  pub merged_tree : Dict Json
  pub conflicts : List Clash

module _ (ours_tree base_tree : Dict Json) where
  -- The body of the loop of `merge`.
  merge_path : String → Json → Merging → Merging
  unfolding value is_none
  merge_path path theirs_value m =
      let ours_value = value ours_tree path in
      if is_none ours_value
      then record m { merged_tree = insert path theirs_value m.merged_tree }
      else if json_eq ours_value theirs_value
      then record m { merged_tree = insert path ours_value m.merged_tree }
      else record m {
        conflicts =
            m.conflicts
            ++ record {
              path = path;
              base = value base_tree path;
              ours = ours_value;
              theirs = theirs_value;
            }
              ∷ [];
      }

  merge_loop : Dict Json → Merging → Merging
  unfolding merge_path
  merge_loop [] m = m
  merge_loop ((path, v) ∷ theirs_tree) m = merge_loop theirs_tree (merge_path path v m)

-- merged_tree and conflicts of `merge`
pub merge_trees : (ours_tree theirs_tree base_tree : Dict Json) → Merging
unfolding merge_loop
merge_trees ours_tree theirs_tree base_tree =
    merge_loop ours_tree base_tree theirs_tree (record { merged_tree = ours_tree; conflicts = [] })

-- The ways `_value_from_resolution` and the lookup of a conflict end: a value, ValueError, KeyError.
pub data Resolution : Type 0 where
  resolved : Json → Resolution
  invalid_resolution key_error : Resolution

-- `value == "..."` for a JSON value and a text
is_text : Json → String → Bool
is_text v t = json_eq v (str t)

-- _value_from_resolution
pub value_from_resolution : Conflict → Resolution
unfolding is_text
value_from_resolution conflict =
    let resolution : Fields = elim conflict.resolution [ none ↦ end | some r ↦ r ] in
    let take = get "take" resolution in
    if is_text take "ours"
    then resolved conflict.ours
    else if is_text take "theirs"
    then resolved conflict.theirs
    else elim (get_field "value" resolution) [ none ↦ invalid_resolution | some v ↦ resolved v ]

pub data Finalized : Type 0 where
  finalized : Dict Json → Finalized
  invalid_value missing_conflict : Finalized

pub take_resolution : String → Resolution → Dict Json → Finalized
take_resolution path (resolved v) merged_tree = finalized (insert path v merged_tree)
take_resolution path invalid_resolution merged_tree = invalid_value
take_resolution path key_error merged_tree = missing_conflict

-- conflict_by_path[path]
resolution_at : Option Conflict → Resolution
unfolding value_from_resolution
resolution_at none = key_error
resolution_at (some c) = value_from_resolution c

pub and_then : Finalized → (Dict Json → Finalized) → Finalized
and_then (finalized t) f = f t
and_then invalid_value f = invalid_value
and_then missing_conflict f = missing_conflict

module _ (ours_tree : Dict Json) where
  -- The body of the loop of `_try_finalize_merge`.
  pub finalize_path : String → Json → Option Conflict → Dict Json → Finalized
  unfolding take_resolution resolution_at value is_none
  finalize_path path theirs_value (some c) merged_tree =
      take_resolution path (value_from_resolution c) merged_tree
  finalize_path path theirs_value none merged_tree =
      let ours_value = value ours_tree path in
      if is_none ours_value
      then finalized (insert path theirs_value merged_tree)
      else if json_eq ours_value theirs_value
      then finalized merged_tree
      else take_resolution path (resolution_at none) merged_tree

module _ (conflict_by_path : String → Option Conflict) (ours_tree : Dict Json) where
  unfoldable pub finalize_loop : Dict Json → Dict Json → Finalized
  unfolding finalize_path and_then
  finalize_loop [] merged_tree = finalized merged_tree
  finalize_loop ((path, v) ∷ theirs_tree) merged_tree =
      and_then (finalize_path ours_tree path v (conflict_by_path path) merged_tree)
        (finalize_loop theirs_tree)
