-- ===== src/Parser/Kicad/Components.antt =====
-- The components that parser/pral/core/kicad_pcb.py and kicad_sch.py find.
use hcp.Prelude.{
  Listed, String, ◌≡◌, refl, sym, subst, ◌∙◌, ap, ◌⊎◌, true, false, Option, none, some, List, [],
  ◌∷◌, map, str_eq, Bool-cases, Option-cases, inl, inr,
}
use hcp.Parser.Schema.{Component}
use hcp.Parser.Sexpr.{Items, str, list, cons, has_head, sexpr_find}
use hcp.Parser.Sexpr.Find.{Below, sexpr_find_exact}
use hcp.Parser.Kicad.Board.{
  named_component, footprint_property, footprint_component, components_of, extract_footprints,
}
use hcp.Parser.Kicad.Schematic.{symbol_component, extract_symbols}

-- Where a component comes from: a footprint with a reference that is not empty.
abbrev pub FromFootprint : Component → Items → Type 0
FromFootprint c fp =
    (footprint_property fp "Reference" ≡ some c.ref)
    × (str_eq c.ref "" ≡ false)
    × (c.value ≡ footprint_property fp "Value")

footprint_component_from :
    (fp : Items) (c : Component) → footprint_component fp ≡ some c → FromFootprint c fp
unfolding named_component footprint_component
footprint_component_from fp c h = elim (Option-cases (footprint_property fp "Reference")) [
  | inl e ↦
      let k : ◌≡◌ {A = Option Component} none (some c) = rw (e, footprint_component) at h in
      absurd (cc k)
  | inr (ref, e) ↦ elim (Bool-cases (str_eq ref "")) [
    | inl empty ↦
        let k : ◌≡◌ {A = Option Component} none (some c) =
          rw (e, empty, footprint_component) at h in
        absurd (cc k)
    | inr full ↦
        let k : some (named_component fp ref) ≡ some c = rw (e, full, footprint_component) at h in
        let same : named_component fp ref ≡ c = cc k in
        subst (λ c. FromFootprint c fp) same (e, full, refl)
  ]
]

components_of_from :
    (fps : List Items) (c : Component)
    → Listed c (components_of fps)
    → (fp : Items) × Listed fp fps × FromFootprint c fp
unfolding components_of
components_of_from [] c h = absurd h
components_of_from (fp ∷ fps) c h = elim (Option-cases (footprint_component fp)) [
  | inl e ↦
      let (g, at_, from) = components_of_from fps c (rw (e, components_of) at h) in
      (g, inr at_, from)
  | inr (d, e) ↦ elim (rw (e, components_of) at h) [
    | inl same ↦ (fp, inl refl, footprint_component_from fp c (e ∙ ap some same))
    | inr later ↦ let (g, at_, from) = components_of_from fps c later in (g, inr at_, from)
  ]
]

-- Each component of a board has the reference and the value of a footprint that stands in the board,
-- at any depth, and its reference is not empty.
pub extract_footprints_from :
    (tree : Items) (c : Component)
    → Listed c (extract_footprints tree)
    → (fp : Items) × (((tree ≡ fp) ⊎ Below fp tree) × (has_head "footprint" fp ≡ true))
      × FromFootprint c fp
unfolding extract_footprints
extract_footprints_from tree c h =
    let (fp, at_, from) = components_of_from (sexpr_find (list tree) "footprint") c h in
    (fp, (sexpr_find_exact "footprint" fp tree).0 at_, from)

map-Listed :
    {A B : Type 0} (f : A → B) (x : A) (xs : List A) → Listed x xs → Listed (f x) (map f xs)
map-Listed f x [] h = elim h [ ]
map-Listed f x (y ∷ ys) (inl e) = inl (ap f e)
map-Listed f x (y ∷ ys) (inr h) = inr (map-Listed f x ys h)

-- Every symbol inside a schematic is a component of it, the definitions of symbols that the schematic
-- carries below `lib_symbols` among them.
pub lib_symbols_are_components :
    (root : String) (lib rest sym : Items)
    → Below sym lib
    → has_head "symbol" sym ≡ true
    → let tree = cons (str root) (cons (list (cons (str "lib_symbols") lib)) rest) in
      Listed (symbol_component sym) (extract_symbols tree)
unfolding extract_symbols
lib_symbols_are_components root lib rest sym at_ h =
    let tree = cons (str root) (cons (list (cons (str "lib_symbols") lib)) rest) in
    map-Listed symbol_component sym (sexpr_find (list tree) "symbol")
      ((sexpr_find_exact "symbol" sym tree).1 (inr (inr (inl at_)), h))
