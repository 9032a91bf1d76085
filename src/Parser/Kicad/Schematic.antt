-- ===== src/Parser/Kicad/Schematic.antt =====
-- parser/pral/core/kicad_sch.py: schematics.
use hcp.Prelude.{
  ℕ, String, Bool, false, ◌||◌, Option, none, some, List, [], ◌∷◌, ◌++◌, map, length, pos,
  if◌then◌else◌,
}
use hcp.Json
use hcp.Json.{Json, Fields, null, num, arr, obj, end, field, set_field, merge_fields}
use hcp.Text.{append}
use hcp.Parser.Schema.{Component, ParsedOutput}
use hcp.Parser.Plugin.{ParseContext, base_output, apply_capabilities, opt_or}
use hcp.Parser.Sexpr.{Sexpr, Items, str, list, nil, cons, parse_sexpr, sexpr_find}
use hcp.Parser.Kicad.{is_text, has_text, tail, property_at, fail}

-- How Python prints a tree in an f-string.
abbrev pub Show : Type 0
Show = Sexpr → String

-- the first property of that name among the items themselves
unfoldable pub direct_property : Items → String → Option (Option String)
direct_property nil key = none
direct_property (cons item rest) key = elim (property_at key item) [
  | none ↦ direct_property rest key
  | some value ↦ some value
]

-- The first text that is found in a list inside, lists in lists included.
unfoldable pub nested_property : Items → String → Option String
nested_property nil key = none
nested_property (cons (list inner) rest) key =
    let below = nested_property inner key in
    let later = nested_property rest key in
    let found : Option String = elim (direct_property inner key) [
      | none ↦ below
      | some value ↦ value
    ] in
    if has_text found then found else later
nested_property (cons _ rest) key = nested_property rest key

unfoldable pub symbol_property : Items → String → Option String
symbol_property sym key = elim (direct_property sym key) [
  | none ↦ nested_property sym key
  | some value ↦ value
]

-- What a symbol without a reference is called.
lib_id : Items → String
lib_id (cons _ (cons (str name) _)) = name
lib_id _ = "unknown"

symbol_ref : Items → String
unfolding lib_id
symbol_ref sym = elim (opt_or (symbol_property sym "Reference") none) [
  | none ↦ lib_id sym
  | some ref ↦ ref
]

unfoldable pub symbol_component : Items → Component
unfolding symbol_ref
symbol_component sym =
    let value = symbol_property sym "Value" in
    record {
      ref = symbol_ref sym;
      mpn = opt_or (symbol_property sym "MPN") value;
      manufacturer = symbol_property sym "Manufacturer";
      value = value;
      footprint = none;
      description = symbol_property sym "Description";
      quantity = pos 1;
      dnp = false;
    }

unfoldable pub extract_symbols : Items → List Component
extract_symbols tree = map symbol_component (sexpr_find (list tree) "symbol")

-- The last text under one of the names.
last_text : (Sexpr → Bool) → Option String → Items → Option String
last_text named found nil = found
last_text named found (cons (list (cons head (cons (str value) _))) rest) =
    last_text named (if named head then some value else found) rest
last_text named found (cons _ rest) = last_text named found rest

or_else : Option String → String → String
or_else o d = elim (opt_or o none) [ none ↦ d | some s ↦ s ]

sheet_fields : Items → Fields
unfolding last_text or_else
sheet_fields sheet =
    let path = last_text (is_text "uuid") none (tail sheet) in
    let name =
      last_text (λ item. is_text "sheetname" item || is_text "name" item) none (tail sheet) in
    field "name" (Json.str (or_else name "sheet")) (field "path" (Json.str (or_else path "")) end)

unfoldable pub sheets_of : List Items → Json.Items
unfolding sheet_fields
sheets_of [] = Json.nil
sheets_of (sheet ∷ rest) = Json.cons (obj (sheet_fields sheet)) (sheets_of rest)

unfoldable pub extract_sheets : Items → Json
extract_sheets tree = arr (sheets_of (sexpr_find (list tree) "sheet"))

title_entry : Sexpr → String → Fields → Fields
title_entry head value meta =
    if is_text "title" head
    then set_field "title" (Json.str value) meta
    else if is_text "rev" head
    then set_field "revision" (Json.str value) meta
    else if is_text "date" head
    then set_field "date" (Json.str value) meta
    else meta

title_items : Items → Fields → Fields
unfolding title_entry
title_items nil meta = meta
title_items (cons (list (cons head (cons (str value) _))) rest) meta =
    title_items rest (title_entry head value meta)
title_items (cons _ rest) meta = title_items rest meta

title_blocks : List Items → Fields → Fields
unfolding title_items
title_blocks [] meta = meta
title_blocks (block ∷ rest) meta = title_blocks rest (title_items (tail block) meta)

unfoldable pub schematic_title : Items → Fields
unfolding title_blocks
schematic_title tree =
    title_blocks (sexpr_find (list tree) "title_block")
      (field "title" null (field "revision" null (field "date" null end)))

-- output.warnings.append(…) for a root that is not a schematic's
warn_root : Show → Sexpr → ParsedOutput → ParsedOutput
warn_root show root output =
    if is_text "kicad_sch" root || is_text "eeschema_schematic" root
    then output
    else record output { warnings = output.warnings ++ append "unexpected root: " (show root) ∷ [] }

unfoldable pub read_schematic : Show → Option Sexpr → ParsedOutput → ParsedOutput
unfolding warn_root
read_schematic show (some (list (cons root rest))) output =
    let tree = cons root rest in
    let symbols = extract_symbols tree in
    let meta = set_field "hierarchical_sheets" (extract_sheets tree) output.extracted_metadata in
    let counted = set_field "symbol_count" (num (pos (length symbols))) meta in
    record (warn_root show root output) {
      components = symbols;
      extracted_metadata = merge_fields counted (schematic_title tree);
    }
read_schematic show none output = output
read_schematic show (some _) output = fail "empty or invalid schematic" output

-- KiCadSchematicParser.parse, of the text and at the time `now`
unfoldable pub parse : Show → ℕ → String → ParseContext → ParsedOutput
parse show now text context =
    let output = record (base_output "KiCadSchematicParser" "SCHEMATIC" now context) {
      tool_name = "KiCad";
      source_tool = some "KiCad";
      parser_version = "1.0.0";
    } in
    apply_capabilities (read_schematic show (parse_sexpr text) output)
