-- ===== src/Parser/Plugin.antt =====
-- parser/pral/interfaces/parser_plugin.py: the contract of parsers, and what an extension says.
use Prim.Native.String.{compare}
use Prim.Native.Nat.{Ordering}
use hcp.Prelude.{
  ℕ, String, Bool, true, false, ◌||◌, Option, none, some, List, [], ◌∷◌, ◌++◌, str_eq, sort_by,
  if◌then◌else◌,
}
use hcp.Json.{Fields, str, field, end, get, truthy}
use hcp.Text.{lower, suffix, member}
use hcp.Parser.Schema.{Component, BomRow, ParsedOutput}

pub record ParseContext : Type 0 where
  pub filename : String
  pub object_id : String
  pub version_id : String
  pub source_tool : Option String
  pub domain : Option String
  pub representation : Option String

abbrev pub interchange_extensions : List String
interchange_extensions =
    ".step" ∷ ".stp" ∷ ".stl" ∷ ".gbr" ∷ ".gtl" ∷ ".gbl" ∷ ".gts" ∷ ".gbs" ∷ ".gto" ∷ ".gbo"
    ∷ ".drl" ∷ ".csv" ∷ ".xlsx" ∷ ".xls" ∷ []

-- Any other extension is native, those of NATIVE_EXTENSIONS and those that nothing lists.
unfoldable pub infer_representation : String → String
infer_representation ext = if member ext interchange_extensions then "interchange" else "native"

tool_domain : String → Option String
tool_domain tool =
    if member tool ("solidworks" ∷ "fusion360" ∷ "autodesk" ∷ "inventor" ∷ [])
    then some "mechanical"
    else if member tool ("altium" ∷ "eagle" ∷ "orcad" ∷ "kicad" ∷ [])
    then some "electrical"
    else none

extension_domain : String → Option String
extension_domain ext =
    if member ext
      (".kicad_pcb" ∷ ".kicad_sch" ∷ ".schdoc" ∷ ".brd" ∷ ".csv" ∷ ".xlsx" ∷ ".xls" ∷ [])
    then some "electrical"
    else if member ext (".step" ∷ ".stp" ∷ ".stl" ∷ ".sldprt" ∷ ".sldasm" ∷ ".f3d" ∷ ".ipt" ∷ [])
    then some "mechanical"
    else if member ext (".gbr" ∷ ".gtl" ∷ ".gbl" ∷ ".gts" ∷ ".gbs" ∷ ".gto" ∷ ".gbo" ∷ ".drl" ∷ [])
    then some "manufacturing"
    else if member ext (".bin" ∷ ".hex" ∷ ".elf" ∷ ".uf2" ∷ [])
    then some "firmware"
    else if str_eq ext ".pdf"
    then some "document"
    else none

-- a or b, of optional texts
unfoldable pub opt_or : Option String → Option String → Option String
opt_or none d = d
opt_or (some s) d = if str_eq s "" then d else some s

unfoldable pub infer_domain : String → Option String → Option String
unfolding tool_domain extension_domain opt_or
infer_domain ext source_tool = elim (opt_or source_tool none) [
  | none ↦ extension_domain ext
  | some tool ↦ elim (tool_domain (lower tool)) [ none ↦ extension_domain ext | some d ↦ some d ]
]

or_text : Option String → String → String
unfolding opt_or
or_text o d = elim (opt_or o none) [ none ↦ d | some s ↦ s ]

-- ParserPlugin._base_output, at the time `now`
unfoldable pub base_output : String → String → ℕ → ParseContext → ParsedOutput
unfolding or_text
base_output parser_name file_type now context =
    let ext = lower (suffix context.filename) in
    record {
      schema_version = "1.1";
      object_id = context.object_id;
      version_id = context.version_id;
      parsed_at = now;
      parser_name = parser_name;
      parser_version = "0.1.0";
      file_type = file_type;
      tool_name = or_text context.source_tool "Unknown";
      components = [];
      bom_rows = [];
      board = none;
      mechanical = none;
      gerber = none;
      firmware = none;
      extracted_metadata = field "filename" (str context.filename) end;
      errors = [];
      warnings = [];
      domain = opt_or context.domain (infer_domain ext context.source_tool);
      representation = or_text context.representation (infer_representation ext);
      source_tool = context.source_tool;
      source_format = if str_eq ext "" then none else some ext;
      capabilities = [];
      source_assets = [];
    }

-- bool(d) of an optional dict
filled : Option Fields → Bool
filled none = false
filled (some end) = false
filled (some (field _ _ _)) = true

has_width : Option Fields → Bool
has_width none = false
has_width (some board) = truthy (get "width_mm" board)

some_components : List Component → Bool
some_components [] = false
some_components (_ ∷ _) = true

some_rows : List BomRow → Bool
some_rows [] = false
some_rows (_ ∷ _) = true

abbrev when : Bool → String → List String
when b s = if b then s ∷ [] else []

-- the capabilities that the output has by what it holds
unfoldable pub found_capabilities : ParsedOutput → List String
unfolding filled has_width some_components some_rows
found_capabilities output =
    when (some_rows output.bom_rows) "has_bom"
    ++ (when (some_components output.components) "has_components"
        ++ (when (filled output.mechanical || has_width output.board) "has_geometry"
            ++ (when (filled output.gerber) "has_gerber_stack"
                ++ when (filled output.firmware) "has_firmware")))

text_le : String → String → Bool
text_le s t = elim (compare s t) [ Ordering.gt ↦ false | _ ↦ true ]

-- set(texts), as a list without repetition
unfoldable pub distinct : List String → List String
distinct [] = []
distinct (s ∷ rest) = let others = distinct rest in if member s rest then others else s ∷ others

unfoldable pub apply_capabilities : ParsedOutput → ParsedOutput
unfolding text_le
apply_capabilities output = record output {
  capabilities = sort_by text_le (distinct (output.capabilities ++ found_capabilities output));
}
