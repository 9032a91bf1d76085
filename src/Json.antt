-- ===== src/Json.antt =====
-- JSON values as the services hold them (`dict[str, Any]`), and the operations of Python's `dict`.
pub mod Dict
use hcp.Prelude.{
  ℕ, zero, suc, String, Bool, true, false, not, ◌&&◌, Option, none, some, List, [], ◌∷◌, ℤ, pos,
  negsuc, ◌==◌, str_eq, if◌then◌else◌,
}

-- Numbers are integers: the services read and write no other number.
mutual
  pub data Json : Type 0 where
    null : Json
    bool : Bool → Json
    num : ℤ → Json
    str : String → Json
    arr : Items → Json
    obj : Fields → Json

  pub data Items : Type 0 where
    nil : Items
    cons : Json → Items → Items

  pub data Fields : Type 0 where
    end : Fields
    field : String → Json → Fields → Fields

-- d.get(k), with `none` for a key that is missing
pub get_field : String → Fields → Option Json
get_field k end = none
get_field k (field j v rest) = if str_eq j k then some v else get_field k rest

-- d.get(k), with `None` for a key that is missing
unfoldable pub get : String → Fields → Json
unfolding get_field
get k d = elim (get_field k d) [ none ↦ null | some v ↦ v ]

count_fields : Fields → ℕ
count_fields end = 0
count_fields (field k v rest) = suc (count_fields rest)

eq_ℤ : ℤ → ℤ → Bool
eq_ℤ (pos a) (pos b) = a == b
eq_ℤ (negsuc a) (negsuc b) = a == b
eq_ℤ _ _ = false

int_of_bool : Bool → ℤ
int_of_bool true = pos 1
int_of_bool false = pos 0

eq_bool : Bool → Bool → Bool
eq_bool true b = b
eq_bool false b = not b

-- Python's `==`: the order of a dict's keys does not count, and `True == 1`.
unfoldable mutual
  unfolding get_field count_fields eq_ℤ int_of_bool eq_bool

  pub json_eq : Json → Json → Bool
  json_eq null null = true
  json_eq (bool a) (bool b) = eq_bool a b
  json_eq (bool a) (num b) = eq_ℤ (int_of_bool a) b
  json_eq (num a) (bool b) = eq_ℤ a (int_of_bool b)
  json_eq (num a) (num b) = eq_ℤ a b
  json_eq (str a) (str b) = str_eq a b
  json_eq (arr a) (arr b) = items_eq a b
  json_eq (obj a) (obj b) = (count_fields a == count_fields b) && fields_in a b
  json_eq _ _ = false

  items_eq : Items → Items → Bool
  items_eq nil nil = true
  items_eq (cons x xs) (cons y ys) = json_eq x y && items_eq xs ys
  items_eq _ _ = false

  fields_in : Fields → Fields → Bool
  fields_in end b = true
  fields_in (field k v rest) b =
      elim (get_field k b) [ none ↦ false | some w ↦ json_eq v w ] && fields_in rest b

-- bool(v)
pub truthy : Json → Bool
truthy null = false
truthy (bool b) = b
truthy (num (pos zero)) = false
truthy (num _) = true
truthy (str s) = not (str_eq s "")
truthy (arr nil) = false
truthy (arr (cons _ _)) = true
truthy (obj end) = false
truthy (obj (field _ _ _)) = true

-- v or d
pub or_else : Json → Json → Json
unfolding truthy
or_else v d = if truthy v then v else d

pub opt_str : Option String → Json
opt_str none = null
opt_str (some s) = str s

pub strs : List String → Items
strs [] = nil
strs (s ∷ ss) = cons (str s) (strs ss)

-- d[k] = v
pub set_field : String → Json → Fields → Fields
set_field k v end = field k v end
set_field k v (field j w rest) =
    if str_eq j k then field j v rest else field j w (set_field k v rest)

-- {**a, **b}
pub merge_fields : Fields → Fields → Fields
unfolding set_field
merge_fields a end = a
merge_fields a (field k v rest) = merge_fields (set_field k v a) rest

-- d.pop(k, None), of the dict that is left
pub remove_field : String → Fields → Fields
remove_field k end = end
remove_field k (field j v rest) =
    let left = remove_field k rest in if str_eq j k then rest else field j v left

-- k in d
pub has_field : String → Fields → Bool
unfolding get_field
has_field k d = elim (get_field k d) [ none ↦ false | some _ ↦ true ]

-- d.setdefault(k, v), of the dict
pub set_default : String → Json → Fields → Fields
unfolding has_field set_field
set_default k v d = if has_field k d then d else set_field k v d
