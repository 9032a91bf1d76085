-- ===== src/Parser/Kicad/Board.antt =====
-- parser/pral/core/kicad_pcb.py: boards.
use hcp.Prelude.{
  ℕ, String, Bool, true, false, not, ◌&&◌, ◌||◌, Option, none, some, List, [], ◌∷◌, ◌++◌, map,
  length, pos, str_eq, if◌then◌else◌,
}
use hcp.Json.{Json, Fields, null, num, arr, end, field, get, set_field, merge_fields, strs}
use hcp.Text.{contains}
use hcp.ObjectTypes.{lookup}
use hcp.Parser.Schema.{Component, ParsedOutput}
use hcp.Parser.Plugin.{ParseContext, base_output, apply_capabilities, opt_or}
use hcp.Parser.Sexpr.{
  Sexpr, Items, int, float, str, list, nil, cons, parse_sexpr, sexpr_find, sexpr_child,
}
use hcp.Parser.Kicad.{is_text, text_of, tail, property_at, fail}

-- What is taken from Python's floats: round(max(xs) - min(xs), 4) of numbers.
abbrev pub Spread : Type 0
Spread = List Sexpr → Json

empty_title : Fields
empty_title = field "title" null (
    field "revision" null (field "author" null (field "date" null (field "project_name" null end))))

title_keys : List (String × String)
title_keys =
    ("title", "title")
    ∷ ("rev", "revision")
    ∷ ("company", "author")
    ∷ ("date", "date")
    ∷ ("comment", "project_name")
    ∷ []

is_null : Json → Bool
is_null null = true
is_null _ = false

-- One item of a title block under its name.
title_entry : String → Sexpr → Fields → Fields
unfolding title_keys is_null
title_entry name (str val) meta = elim (lookup name title_keys) [
  | none ↦ meta
  | some key ↦
      if is_null (get key meta) || str_eq name "title"
      then set_field key (Json.str val) meta
      else meta
]
title_entry name _ meta = meta

-- `none` is the TypeError of a list for a name.
title_items : Items → Fields → Option Fields
unfolding title_entry
title_items nil meta = some meta
title_items (cons (list (cons (list _) (cons _ _))) rest) meta = none
title_items (cons (list (cons (str name) (cons val _))) rest) meta =
    title_items rest (title_entry name val meta)
title_items (cons _ rest) meta = title_items rest meta

unfoldable pub title_block : Items → Option Fields
unfolding empty_title title_items
title_block tree = elim (sexpr_child tree "title_block") [
  | none ↦ some empty_title
  | some block ↦ title_items (tail block) empty_title
]

-- the name of a copper layer
signal_layer : Sexpr → Option String
signal_layer (list (cons _ (cons (str name) (cons kind _)))) =
    if not (str_eq name "") && is_text "signal" kind then some name else none
signal_layer _ = none

signal_layers : Items → List String
unfolding signal_layer
signal_layers nil = []
signal_layers (cons layer rest) = elim (signal_layer layer) [
  | none ↦ signal_layers rest
  | some name ↦ name ∷ signal_layers rest
]

unfoldable pub copper_layers : Items → List String
unfolding signal_layers
copper_layers tree = elim (sexpr_child tree "layers") [
  | none ↦ []
  | some layers ↦ signal_layers (tail layers)
]

-- the first property of that name, if its value is a text
unfoldable pub footprint_property : Items → String → Option String
footprint_property nil key = none
footprint_property (cons item rest) key = elim (property_at key item) [
  | none ↦ footprint_property rest key
  | some value ↦ value
]

second_text : Items → Option String
second_text (cons _ (cons item _)) = text_of item
second_text _ = none

is_true : Option String → Bool
is_true none = false
is_true (some s) = str_eq s "true"

-- the component of a footprint with that reference
unfoldable pub named_component : Items → String → Component
unfolding second_text is_true
named_component fp ref =
    let value = footprint_property fp "Value" in
    record {
      ref = ref;
      mpn = opt_or (footprint_property fp "MPN") value;
      manufacturer = footprint_property fp "Manufacturer";
      value = value;
      footprint = second_text fp;
      description = footprint_property fp "Description";
      quantity = pos 1;
      dnp = is_true (footprint_property fp "DNP");
    }

-- A footprint without a reference is no component.
unfoldable pub footprint_component : Items → Option Component
footprint_component fp = elim (footprint_property fp "Reference") [
  | none ↦ none
  | some ref ↦ if str_eq ref "" then none else some (named_component fp ref)
]

unfoldable pub components_of : List Items → List Component
components_of [] = []
components_of (fp ∷ fps) = elim (footprint_component fp) [
  | none ↦ components_of fps
  | some c ↦ c ∷ components_of fps
]

unfoldable pub extract_footprints : Items → List Component
extract_footprints tree = components_of (sexpr_find (list tree) "footprint")

unfoldable pub node_layer : Items → Option String
node_layer nil = none
node_layer (cons (list (cons head (cons name _))) rest) =
    if is_text "layer" head then text_of name else node_layer rest
node_layer (cons _ rest) = node_layer rest

is_number : Sexpr → Bool
is_number (int _) = true
is_number (float _) = true
is_number _ = false

is_point : Sexpr → Bool
is_point item =
    is_text "start" item || (is_text "end" item || (is_text "at" item || is_text "xy" item))

point_at : Sexpr → Items → List (Sexpr × Sexpr)
unfolding is_number is_point
point_at item (cons x (cons y _)) =
    if is_point item && (is_number x && is_number y) then (x, y) ∷ [] else []
point_at item _ = []

unfoldable pub collect_points : Items → List (Sexpr × Sexpr)
unfolding point_at
collect_points nil = []
collect_points (cons (list inner) rest) = collect_points inner ++ collect_points rest
collect_points (cons item rest) = point_at item rest ++ collect_points rest

-- Lines on layers other than the outline's and the drawings' do not count. Rectangles count on every
-- layer.
unfoldable pub counts : Items → Bool
counts (cons head rest) = elim (node_layer (cons head rest)) [
  | none ↦ true
  | some layer ↦
      str_eq layer ""
      || (contains "Edge.Cuts" layer || (contains "Dwgs.User" layer || is_text "gr_rect" head))
]
counts nil = true

unfoldable pub outline_points : List Items → List (Sexpr × Sexpr)
outline_points [] = []
outline_points (node ∷ nodes) =
    let points = collect_points node in
    let rest = outline_points nodes in if counts node then points ++ rest else rest

-- item[0] of an empty list
has_empty : Items → Bool
has_empty nil = false
has_empty (cons (list nil) rest) = true
has_empty (cons _ rest) = has_empty rest

-- Width and height; `none` is the IndexError of an empty list among the general settings.
unfoldable pub board_dimensions : Spread → Items → Option (Json × Json)
unfolding has_empty
board_dimensions spread tree =
    elim (outline_points (sexpr_find (list tree) "gr_rect" ++ sexpr_find (list tree) "gr_line")) [
      | p ∷ ps ↦ some (
        spread (map (λ (q : Sexpr × Sexpr). q.0) (p ∷ ps)),
        spread (map (λ (q : Sexpr × Sexpr). q.1) (p ∷ ps)),
      )
      | [] ↦ elim (sexpr_child tree "general") [
        | none ↦ some (null, null)
        | some general ↦ if has_empty (tail general) then none else some (null, null)
      ]
    ]

board_dict : Json → Json → List String → ℕ → Fields
board_dict width height layers nets = field "width_mm" width (
    field "height_mm" height (
      field "layer_count" (num (pos (length layers))) (
        field "net_count" (num (pos nets)) (
          field "copper_layers" (arr (strs layers))
            (field "min_trace_mm" null (field "min_via_mm" null (field "stackup" null end)))))))

is_board : Sexpr → Option Items
is_board (list (cons head rest)) = if is_text "kicad_pcb" head then some (cons head rest) else none
is_board _ = none

-- The components, and the board if its dimensions can be read.
fill_board : Spread → Items → ParsedOutput → ParsedOutput
unfolding board_dict
fill_board spread tree output =
    let found = record output { components = extract_footprints tree } in
    elim (board_dimensions spread tree) [
      | none ↦ fail "parse error: list index out of range" found
      | some (width, height) ↦ record found {
        board =
            some (
              board_dict width height (copper_layers tree) (length (sexpr_find (list tree) "net")));
      }
    ]

unfoldable pub read_board : Spread → Option Sexpr → ParsedOutput → ParsedOutput
unfolding is_board fill_board
read_board spread none output = output
read_board spread (some tree) output = elim (is_board tree) [
  | none ↦ fail "not a valid kicad_pcb file" output
  | some items ↦ elim (title_block items) [
    | none ↦ fail "parse error: unhashable type: 'list'" output
    | some meta ↦
        fill_board spread items
          (record output { extracted_metadata = merge_fields output.extracted_metadata meta })
  ]
]

-- KiCadPCBParser.parse, of the text and at the time `now`
unfoldable pub parse : Spread → ℕ → String → ParseContext → ParsedOutput
parse spread now text context =
    let output = record (base_output "KiCadPCBParser" "PCB" now context) {
      tool_name = "KiCad";
      source_tool = some "KiCad";
      parser_version = "1.0.0";
    } in
    apply_capabilities (read_board spread (parse_sexpr text) output)
