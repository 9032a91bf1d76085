-- ===== src/Hos/Diff.antt =====
-- `diff` of hos_version_control.py: the comparison of two state maps.
pub mod Exact
use Prim.Native.String.{compare}
use Prim.Native.Nat.{Ordering}
use hcp.Prelude.{
  String, Bool, true, false, not, ◌&&◌, Option, none, some, List, [], ◌∷◌, ◌++◌, map, any, select,
  sort_by, str_eq, if◌then◌else◌,
}
use hcp.Json.{Json, null, json_eq}
use hcp.Json.Dict.{Dict, lookup}

pub data ChangeType : Type 0 where
  added removed modified : ChangeType

pub record DiffEntry : Type 0 where
  pub path : String
  pub change_type : ChangeType
  pub from_value : Json
  pub to_value : Json
  pub model : String

-- v is None
unfoldable pub is_none : Json → Bool
is_none null = true
is_none _ = false

-- d.get(path)
unfoldable pub value : Dict Json → String → Json
unfolding lookup
value d path = elim (lookup path d) [ none ↦ null | some v ↦ v ]

unfoldable pub keys : Dict Json → List String
keys [] = []
keys ((k, v) ∷ d) = k ∷ keys d

-- path in paths
unfoldable pub has_path : String → List String → Bool
has_path path paths = any (λ p. str_eq p path) paths

-- Python orders texts by their code points.
text_le : String → String → Bool
text_le a b = elim (compare a b) [ Ordering.gt ↦ false | _ ↦ true ]

-- sorted(set(a.keys()) | set(b.keys()))
diff_paths : Dict Json → Dict Json → List String
unfolding keys has_path text_le
diff_paths a b = sort_by text_le (keys a ++ select (λ p. not (has_path p (keys a))) (keys b))

-- The body of the loop.
pub diff_entry : String → String → Json → Json → Option DiffEntry
unfolding is_none
diff_entry model path av bv =
    if is_none av && not (is_none bv)
    then some (record {
      path = path;
      change_type = added;
      from_value = null;
      to_value = bv;
      model = model;
    })
    else if not (is_none av) && is_none bv
    then some (record {
      path = path;
      change_type = removed;
      from_value = av;
      to_value = null;
      model = model;
    })
    else if not (json_eq av bv)
    then some (record {
      path = path;
      change_type = modified;
      from_value = av;
      to_value = bv;
      model = model;
    })
    else none

append_entry : Option DiffEntry → List DiffEntry → List DiffEntry
append_entry none out = out
append_entry (some e) out = e ∷ out

diff_loop : String → Dict Json → Dict Json → List String → List DiffEntry
unfolding diff_entry append_entry value
diff_loop model a b [] = []
diff_loop model a b (p ∷ paths) =
    append_entry (diff_entry model p (value a p) (value b p)) (diff_loop model a b paths)

pub diff_maps : String → Dict Json → Dict Json → List DiffEntry
unfolding diff_loop diff_paths
diff_maps model a b = diff_loop model a b (diff_paths a b)
