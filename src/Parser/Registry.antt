-- ===== src/Parser/Registry.antt =====
-- parser/pral/registry.py and parser/pral/plugins/loader.py: which parser reads a file.
pub mod Agreement
use hcp.Prelude.{
  ℕ, zero, suc, String, Bool, true, false, ◌&&◌, ◌||◌, Option, none, some, List, [], ◌∷◌, map, take,
  first_where, str_eq, if◌then◌else◌,
}
use hcp.Text.{lower, strip, suffix, member, codes, bytes_contain, bytes_upper}
use hcp.ObjectTypes.{lookup}
use hcp.Parser.Plugin.{ParseContext}

-- A vendor's parser is known by its plugin's identifier.
pub data ParserClass : Type 0 where
  kicad_pcb_parser : ParserClass
  kicad_schematic_parser : ParserClass
  gerber_parser : ParserClass
  step_parser : ParserClass
  bom_parser : ParserClass
  firmware_store : ParserClass
  pdf_store : ParserClass
  raw_store : ParserClass
  vendor_parser : String → ParserClass

-- ParserPlugin.file_type; a vendor's parser brings its own
unfoldable pub file_type : (String → String) → ParserClass → String
file_type vendor kicad_pcb_parser = "PCB"
file_type vendor kicad_schematic_parser = "SCHEMATIC"
file_type vendor gerber_parser = "GERBER_STACK"
file_type vendor step_parser = "STEP"
file_type vendor bom_parser = "BOM"
file_type vendor firmware_store = "FIRMWARE"
file_type vendor pdf_store = "PDF"
file_type vendor raw_store = "OTHER"
file_type vendor (vendor_parser id) = vendor id

pub record PluginManifest : Type 0 where
  pub id : String
  pub vendor : String
  pub domains : List String
  pub extensions : List String
  pub requires_sidecar : Bool
  pub output_capabilities : List String
  pub source_tools : List String

-- What a directory of plugins/ holds: plugin.yaml, and whether there is a StubParser and a
-- StubConverter.
pub record PluginDir : Type 0 where
  pub manifest : PluginManifest
  pub has_parser : Bool
  pub has_converter : Bool

pub record LoadedPlugin : Type 0 where
  pub manifest : PluginManifest
  pub parser_cls : ParserClass
  pub converter_cls : Option String
  pub source_tools : List String
  pub extensions : List String

unfoldable pub load_manifest : PluginManifest → PluginManifest
load_manifest data_ = record data_ { extensions = map lower data_.extensions }

loaded_plugin : PluginDir → LoadedPlugin
loaded_plugin dir =
    let manifest = load_manifest dir.manifest in
    record {
      manifest = manifest;
      parser_cls = vendor_parser manifest.id;
      converter_cls = if dir.has_converter then some manifest.id else none;
      source_tools = manifest.source_tools;
      extensions = manifest.extensions;
    }

-- The directories that are found, in the order of their names.
unfoldable pub load_plugins : List PluginDir → List LoadedPlugin
unfolding loaded_plugin
load_plugins [] = []
load_plugins (dir ∷ dirs) =
    let rest = load_plugins dirs in if dir.has_parser then loaded_plugin dir ∷ rest else rest

abbrev pub extension_registry : List (String × ParserClass)
extension_registry =
    (".kicad_pcb", kicad_pcb_parser)
    ∷ (".kicad_sch", kicad_schematic_parser)
    ∷ (".gbr", gerber_parser)
    ∷ (".gtl", gerber_parser)
    ∷ (".gbl", gerber_parser)
    ∷ (".gts", gerber_parser)
    ∷ (".gbs", gerber_parser)
    ∷ (".gto", gerber_parser)
    ∷ (".gbo", gerber_parser)
    ∷ (".drl", gerber_parser)
    ∷ (".step", step_parser)
    ∷ (".stp", step_parser)
    ∷ (".stl", step_parser)
    ∷ (".csv", bom_parser)
    ∷ (".xlsx", bom_parser)
    ∷ (".xls", bom_parser)
    ∷ (".bin", firmware_store)
    ∷ (".hex", firmware_store)
    ∷ (".elf", firmware_store)
    ∷ (".uf2", firmware_store)
    ∷ (".pdf", pdf_store)
    ∷ []

abbrev pub magic_routes : List (List ℕ × ParserClass)
magic_routes =
    (codes "%PDF", pdf_store)
    ∷ (127 ∷ codes "ELF", firmware_store)
    ∷ (codes "UF2\n", firmware_store)
    ∷ (codes "ISO-10303", step_parser)
    ∷ []

-- What the tool is called, if it is; an empty name is none.
normalize_source_tool : Option String → Option String
normalize_source_tool none = none
normalize_source_tool (some tool) = if str_eq tool "" then none else some (strip tool)

serves : String → String → LoadedPlugin → Bool
serves tool ext plugin = member tool (map lower plugin.source_tools) && member ext plugin.extensions

unfoldable pub match_loaded_plugin :
    List LoadedPlugin → Option String → String → Option LoadedPlugin
unfolding normalize_source_tool serves
match_loaded_plugin plugins source_tool ext = elim (normalize_source_tool source_tool) [
  | none ↦ none
  | some tool ↦ if str_eq tool "" then none else first_where (serves (lower tool) ext) plugins
]

unfoldable pub resolve_converter : List LoadedPlugin → String → Option String → Option String
resolve_converter plugins filename source_tool =
    elim (match_loaded_plugin plugins source_tool (lower (suffix filename))) [
      | none ↦ none
      | some plugin ↦ plugin.converter_cls
    ]

-- the first route whose magic the head has
unfoldable pub route : List ℕ → List (List ℕ × ParserClass) → Option ParserClass
route head [] = none
route head ((magic, parser_cls) ∷ rest) =
    let later = route head rest in if bytes_contain magic head then some parser_cls else later

unfoldable pub sniff_parser : List ℕ → String → Option ParserClass
sniff_parser file_bytes ext =
    let head = take 512 file_bytes in
    elim (route head magic_routes) [
      | some parser_cls ↦ some parser_cls
      | none ↦
          if (str_eq ext ".step" || str_eq ext ".stp") && bytes_contain (codes "ISO-10303") head
          then some step_parser
          else if str_eq ext ".drl"
              && (bytes_contain (codes "M48") head
                  || bytes_contain (codes "DRILL") (bytes_upper head))
          then some gerber_parser
          else none
    ]

-- EXTENSION_REGISTRY.get(ext, RawStore)
unfoldable pub registered : String → ParserClass
registered ext = elim (lookup ext extension_registry) [ none ↦ raw_store | some c ↦ c ]

-- get_parser passes its arguments on. The domain and the representation do not count.
unfoldable pub resolve_parser : List LoadedPlugin → String → List ℕ → Option String → ParserClass
resolve_parser plugins filename file_bytes source_tool =
    let ext = lower (suffix filename) in
    elim (match_loaded_plugin plugins source_tool ext) [
      | some plugin ↦ plugin.parser_cls
      | none ↦ elim (sniff_parser file_bytes ext) [
        | some parser_cls ↦ parser_cls
        | none ↦ registered ext
      ]
    ]

unfoldable pub build_context :
    String → String → String → Option String → Option String → Option String → ParseContext
build_context filename object_id version_id source_tool domain representation = record {
  filename = filename;
  object_id = object_id;
  version_id = version_id;
  source_tool = source_tool;
  domain = domain;
  representation = representation;
}
