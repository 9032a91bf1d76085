-- ===== src/Parser/Kicad/Integers.antt =====
-- Values that are numbers, in boards that parser/pral/core/kicad_pcb.py reads.
use hcp.Prelude.{ℕ, String, ◌≡◌, refl, ◌∙◌, ap, true, false, none, some, [], ◌∷◌, ℤ, pos, str_eq}
use hcp.Parser.Schema.{Component, ParsedOutput}
use hcp.Parser.Plugin.{ParseContext, base_output, apply_capabilities}
use hcp.Parser.Sexpr
use hcp.Parser.Sexpr.{Sexpr, Items, int, str, list, nil, cons, parse_atom, parse_sexpr}
use hcp.Parser.Sexpr.Loop.{append}
use hcp.Parser.Sexpr.Printing.{Written, WrittenItems, word, quoted, print, meaning, is_readable}
use hcp.Parser.Sexpr.RoundTrip.{stops, parse_sexpr-print}
use hcp.Parser.Kicad.Board.{
  Spread, extract_footprints, components_of, footprint_component, read_board, parse,
}

-- (property "key" "text")
abbrev written_property : String → String → Written
written_property key text = Written.list (
    WrittenItems.cons (word "property")
      (WrittenItems.cons (quoted key) (WrittenItems.cons (quoted text) WrittenItems.nil)))

-- A board with one footprint, as KiCad writes it down: with a name, a reference and a value.
abbrev pub one_footprint : (name ref value : String) → Written
one_footprint name ref value = Written.list (
    WrittenItems.cons (word "kicad_pcb") (
      WrittenItems.cons
        (Written.list (
          WrittenItems.cons (word "footprint") (
            WrittenItems.cons (quoted name) (
              WrittenItems.cons (written_property "Reference" ref)
                (WrittenItems.cons (written_property "Value" value) WrittenItems.nil)))))
        WrittenItems.nil))

abbrev property : String → Sexpr → Sexpr
property key value = list (cons (str "property") (cons (str key) (cons value nil)))

abbrev footprint_with : (name ref : String) → Sexpr → Items
footprint_with name ref value =
    cons (str "footprint")
      (cons (str name) (cons (property "Reference" (str ref)) (cons (property "Value" value) nil)))

abbrev tree_with : (name ref : String) → Sexpr → Items
tree_with name ref value = cons (str "kicad_pcb") (cons (list (footprint_with name ref value)) nil)

keywords :
    (parse_atom "kicad_pcb" ≡ str "kicad_pcb")
    × (parse_atom "footprint" ≡ str "footprint")
    × (parse_atom "property" ≡ str "property")
    × (parse_atom "Reference" ≡ str "Reference")
    × (parse_atom "Value" ≡ str "Value")
unfolding parse_atom hcp.Parser.Sexpr.Numbers.has_exponent_or_point hcp.Parser.Sexpr.Numbers.int_of
    hcp.Text.strip hcp.Parser.Sexpr.Numbers.is_float
keywords = (refl, refl, refl, refl, refl)

meaning-one_footprint :
    (name ref value : String)
    → parse_atom name ≡ str name
    → parse_atom ref ≡ str ref
    → meaning (one_footprint name ref value) ≡ list (tree_with name ref (parse_atom value))
unfolding meaning
meaning-one_footprint name ref value h k =
    let (a, b, c, d, e) = keywords in rw (a, b, c, d, e, h, k) refl

-- The component that is left of a resistor whose value is an integer.
abbrev pub without_value : (name ref : String) → Component
without_value name ref = record {
  ref = ref;
  mpn = none;
  manufacturer = none;
  value = none;
  footprint = some name;
  description = none;
  quantity = pos 1;
  dnp = false;
}

component_here :
    (name ref : String) (n : ℤ)
    → str_eq ref "" ≡ false
    → footprint_component (footprint_with name ref (int n)) ≡ some (without_value name ref)
unfolding footprint_component hcp.Parser.Kicad.Board.footprint_property hcp.Parser.Kicad.property_at
    hcp.Parser.Kicad.Board.named_component hcp.Parser.Plugin.opt_or
component_here name ref n full = rw (full, footprint_component) refl

from_footprint :
    (name ref : String) (n : ℤ)
    → str_eq ref "" ≡ false
    → extract_footprints (tree_with name ref (int n)) ≡ without_value name ref ∷ []
unfolding extract_footprints components_of Sexpr.sexpr_find
from_footprint name ref n full = rw (component_here name ref n full, components_of) refl

read_board-tree_with :
    (spread : Spread) (name ref : String) (n : ℤ) (output : ParsedOutput)
    → str_eq ref "" ≡ false
    → (read_board spread (some (list (tree_with name ref (int n)))) output).components
      ≡ without_value name ref ∷ []
unfolding read_board hcp.Parser.Kicad.is_text extract_footprints hcp.Parser.Kicad.Board.title_block
    components_of Sexpr.sexpr_child Sexpr.sexpr_find hcp.Parser.Kicad.Board.board_dimensions
    footprint_component hcp.Parser.Kicad.Board.outline_points
    hcp.Parser.Kicad.Board.footprint_property
read_board-tree_with spread name ref n output full = from_footprint name ref n full

-- A value that reads as an integer is lost: of a board with one footprint, whose name and reference
-- are texts that do not read as numbers and whose reference is not empty, the parser answers one
-- component, with this name and reference and with neither a value nor an MPN, whatever stands behind
-- the board in the file.
pub integer_property_lost :
    (spread : Spread) (now : ℕ) (context : ParseContext) (name ref value rest : String) (n : ℤ)
    → is_readable (one_footprint name ref value) ≡ true
    → stops rest ≡ true
    → parse_atom name ≡ str name
    → parse_atom ref ≡ str ref
    → str_eq ref "" ≡ false
    → parse_atom value ≡ int n
    → (parse spread now (append (print (one_footprint name ref value)) rest) context).components
      ≡ without_value name ref ∷ []
unfolding parse apply_capabilities
integer_property_lost spread now context name ref value rest n can ends h k full number =
    let read =
      parse_sexpr-print (one_footprint name ref value) rest can ends
      ∙ ap some (meaning-one_footprint name ref value h k)
      ∙ ap (λ v. some (list (tree_with name ref v))) number in
    rw read (read_board-tree_with spread name ref n _ full)
