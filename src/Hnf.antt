-- ===== src/Hnf.antt =====
-- api/app/services/hnf.py: object snapshots, the legacy tree, and the rows of a commit. What the
-- service takes from pydantic and from Python's `str`, `int`, `list` and `uuid` is a record.
pub mod Rows
use hcp.Prelude.{
  ℕ, suc, ℤ, pos, leb_ℤ, String, Bool, true, false, not, ◌&&◌, Option, none, some, List, [], ◌∷◌,
  ◌++◌, str_eq, if◌then◌else◌,
}
use hcp.Json.{
  Json, null, num, str, arr, obj, Items, nil, Fields, end, field, get_field, get, set_field, truthy,
  or_else, strs,
}
use hcp.Action.{Result, ok, err, bad_uuid, validation_error}
use hcp.Events.{Runtime}

-- HnfObjectSnapshotInput
pub record SnapshotInput : Type 0 where
  pub object_path : String
  pub object_id : Option ℕ
  pub version_id : Option ℕ
  pub version_num : Option ℤ
  pub content_hash : Option String
  pub hnf_type : String
  pub domain : Option String
  pub refs : List String
  pub properties : Option Fields

pub record Validation : Type 0 where
  -- HnfObjectSnapshotInput.model_validate, `none` for ValidationError, and the texts of its errors
  pub model_validate : Fields → Option SnapshotInput
  pub errors : Fields → List String
  -- model_dump(mode="json")
  pub model_dump : SnapshotInput → Fields
  -- str(v), int(v), list(v), and uuid.UUID(s), `none` for ValueError
  pub py_str : Json → String
  pub py_int : Json → ℤ
  pub py_list : Json → Items
  pub parse_uuid : String → Option ℕ

infixl 5 ◌>>=◌
abbrev pub ◌>>=◌ {ℓ κ} : {A : Type ℓ} {B : Type κ} → Result A → (A → Result B) → Result B
ok a >>= f = f a
err e >>= f = err e

-- A text that is there and not empty.
unfoldable pub nonempty : Option String → Option String
nonempty none = none
nonempty (some s) = if str_eq s "" then none else some s

-- `if v is not None: out[k] = v`
put_some : String → Option Json → Fields → Fields
put_some k none out = out
put_some k (some v) out = set_field k v out

map_some {ℓ} : {A : Type ℓ} → (A → Json) → Option A → Option Json
map_some f none = none
map_some f (some a) = some (f a)

nonempty_refs : List String → Option Json
nonempty_refs [] = none
nonempty_refs (r ∷ rs) = some (arr (strs (r ∷ rs)))

nonempty_fields : Option Fields → Option Json
nonempty_fields (some (field k v rest)) = some (obj (field k v rest))
nonempty_fields _ = none

pub legacy_tree_value : Runtime → SnapshotInput → Fields
unfolding put_some map_some nonempty nonempty_refs nonempty_fields
legacy_tree_value rt s = put_some "properties" (nonempty_fields s.properties) (
    put_some "refs" (nonempty_refs s.refs) (
      put_some "domain" (map_some str (nonempty s.domain)) (
        put_some "content_hash" (map_some str (nonempty s.content_hash)) (
          put_some "version_id" (map_some (λ i. str (rt.uuid_text i)) s.version_id) (
            put_some "version_num" (map_some num s.version_num) (
              put_some "object_id" (map_some (λ i. str (rt.uuid_text i)) s.object_id)
                (field "hnf_type" (str s.hnf_type) end)))))))

-- value.get("hnf_type") or value.get("kind") or "hardware.object"
hnf_type_of : Fields → Json
hnf_type_of d = or_else (get "hnf_type" d) (or_else (get "kind" d) (str "hardware.object"))

pub uuid_json : Runtime → Option ℕ → Json
uuid_json rt none = null
uuid_json rt (some i) = str (rt.uuid_text i)

module _ (v : Validation) where
  -- uuid.UUID(str(x)) if x else None, as the value of a keyword argument
  optional_uuid : Json → Result (Option ℕ)
  optional_uuid x =
      if truthy x
      then elim (v.parse_uuid (v.py_str x)) [ none ↦ err bad_uuid | some i ↦ ok (some i) ]
      else ok none

  validated : Fields → Result SnapshotInput
  validated kwargs = elim (v.model_validate kwargs) [ none ↦ err validation_error | some s ↦ ok s ]

  -- One entry of the tree that is a dict.
  snapshot_from_entry : Runtime → String → Fields → Result SnapshotInput
  unfolding optional_uuid validated hnf_type_of uuid_json
  snapshot_from_entry rt path value = do
    object_id ← optional_uuid (get "object_id" value)
    version_id ← optional_uuid (get "version_id" value)
    validated (
        field "object_path" (str path) (
          field "object_id" (uuid_json rt object_id) (
            field "version_id" (uuid_json rt version_id) (
              field "version_num" (get "version_num" value) (
                field "content_hash" (get "content_hash" value) (
                  field "hnf_type" (str (v.py_str (hnf_type_of value))) (
                    field "domain" (get "domain" value) (
                      field "refs" (arr (v.py_list (or_else (get "refs" value) (arr nil))))
                        (field "properties" (get "properties" value) end)))))))))

  unfoldable pub snapshots_from_legacy_tree : Runtime → Fields → Result (List SnapshotInput)
  unfolding snapshot_from_entry
  snapshots_from_legacy_tree rt end = ok []
  snapshots_from_legacy_tree rt (field path (obj value) rest) =
      let others = snapshots_from_legacy_tree rt rest in
      if str_eq path "scene_graph_snapshot"
      then others
      else if str_eq path "tree_root_ref"
      then others
      else do s ← snapshot_from_entry rt path value; ss ← others; ok (s ∷ ss)
  snapshots_from_legacy_tree rt (field path _ rest) = snapshots_from_legacy_tree rt rest

  -- Warnings about a snapshot that pydantic accepts.
  accepted_warnings : Fields → List String
  accepted_warnings snapshot =
      (if truthy (get "object_path" snapshot) then [] else "object_path: required" ∷ [])
      ++ ((if truthy (get "hnf_type" snapshot) then [] else "hnf_type: required" ∷ [])
          ++ elim (get "version_num" snapshot) [
            | null ↦ []
            | n ↦
                if leb_ℤ (pos 1) (v.py_int n) then [] else "version_num: must be >= 1 when set" ∷ []
          ])

  pub validate_object_snapshot : Fields → List String
  unfolding accepted_warnings
  validate_object_snapshot snapshot = elim (v.model_validate snapshot) [
    | none ↦ v.errors snapshot
    | some _ ↦ accepted_warnings snapshot
  ]
