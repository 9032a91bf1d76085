-- ===== src/ObjectTypes.antt =====
-- api/app/services/object_types.py: what a file is, from its name and what the upload says of it.
use hcp.Prelude.{String, ◌&&◌, ◌||◌, Option, none, some, List, [], ◌∷◌, str_eq, if◌then◌else◌}
use hcp.Text.{strip, lower, contains, has_prefix, without_blanks, suffix, member}

abbrev pub domain_values : List String
domain_values = "electrical" ∷ "mechanical" ∷ "manufacturing" ∷ "firmware" ∷ "document" ∷ []

abbrev pub representation_values : List String
representation_values = "native" ∷ "interchange" ∷ "derived" ∷ []

-- table.get(key)
unfoldable pub lookup {ℓ} : {V : Type ℓ} → String → List (String × V) → Option V
lookup k [] = none
lookup k ((j, v) ∷ rest) = let later = lookup k rest in if str_eq j k then some v else later

abbrev pub extension_to_type : List (String × String)
extension_to_type =
    (".kicad_pcb", "PCB")
    ∷ (".kicad_sch", "SCHEMATIC")
    ∷ (".step", "STEP")
    ∷ (".stp", "STEP")
    ∷ (".stl", "STEP")
    ∷ (".gbr", "GERBER_STACK")
    ∷ (".gtl", "GERBER_STACK")
    ∷ (".gbl", "GERBER_STACK")
    ∷ (".gts", "GERBER_STACK")
    ∷ (".gbs", "GERBER_STACK")
    ∷ (".gto", "GERBER_STACK")
    ∷ (".gbo", "GERBER_STACK")
    ∷ (".drl", "GERBER_STACK")
    ∷ (".csv", "BOM")
    ∷ (".xlsx", "BOM")
    ∷ (".xls", "BOM")
    ∷ (".bin", "FIRMWARE")
    ∷ (".hex", "FIRMWARE")
    ∷ (".elf", "FIRMWARE")
    ∷ (".uf2", "FIRMWARE")
    ∷ (".pdf", "PDF")
    ∷ []

abbrev pub native_extensions : List String
native_extensions =
    ".kicad_pcb" ∷ ".kicad_sch" ∷ ".sldprt" ∷ ".sldasm" ∷ ".f3d" ∷ ".ipt" ∷ ".iam" ∷ ".SchDoc"
    ∷ ".brd" ∷ ".opj" ∷ []

abbrev pub interchange_extensions : List String
interchange_extensions =
    ".step" ∷ ".stp" ∷ ".stl" ∷ ".gbr" ∷ ".gtl" ∷ ".gbl" ∷ ".gts" ∷ ".gbs" ∷ ".gto" ∷ ".gbo"
    ∷ ".drl" ∷ ".csv" ∷ ".xlsx" ∷ ".xls" ∷ ".odb" ∷ []

abbrev pub domain_extension_hints : List (String × List String)
domain_extension_hints =
    (
      "electrical",
      ".kicad_pcb" ∷ ".kicad_sch" ∷ ".SchDoc" ∷ ".brd" ∷ ".opj" ∷ ".csv" ∷ ".xlsx" ∷ ".xls" ∷ [],
    )
    ∷ (
      "mechanical",
      ".step" ∷ ".stp" ∷ ".stl" ∷ ".sldprt" ∷ ".sldasm" ∷ ".f3d" ∷ ".ipt" ∷ ".iam" ∷ [],
    )
    ∷ (
      "manufacturing",
      ".gbr" ∷ ".gtl" ∷ ".gbl" ∷ ".gts" ∷ ".gbs" ∷ ".gto" ∷ ".gbo" ∷ ".drl" ∷ ".odb" ∷ [],
    )
    ∷ ("firmware", firmware_extensions)
    ∷ ("document", ".pdf" ∷ [])
    ∷ []
  where
    firmware_extensions : List String
    firmware_extensions = ".bin" ∷ ".hex" ∷ ".elf" ∷ ".uf2" ∷ []

abbrev pub source_tool_domain_hints : List (String × String)
source_tool_domain_hints =
    ("kicad", "electrical")
    ∷ ("altium", "electrical")
    ∷ ("eagle", "electrical")
    ∷ ("orcad", "electrical")
    ∷ ("solidworks", "mechanical")
    ∷ ("fusion360", "mechanical")
    ∷ ("autodesk", "mechanical")
    ∷ ("inventor", "mechanical")
    ∷ []

unfoldable pub normalize_ext : String → String
normalize_ext filename = lower (suffix filename)

-- an argument that is given, not empty, and among the values
given : List String → Option String → Option String
unfolding member
given values none = none
given values (some v) = if str_eq v "" then none else if member v values then some v else none

unfoldable pub infer_representation : String → Option String → String
unfolding given
infer_representation filename representation = elim (given representation_values representation) [
  | some r ↦ r
  | none ↦
      let ext = normalize_ext filename in
      if member ext native_extensions
      then "native"
      else if member ext interchange_extensions
      then "interchange"
      else "native"
]

-- the first domain that hints at the extension
unfoldable pub hinted_domain : String → List (String × List String) → Option String
hinted_domain ext [] = none
hinted_domain ext ((name, extensions) ∷ rest) =
    let later = hinted_domain ext rest in if member ext extensions then some name else later

tool_domain : Option String → Option String
tool_domain none = none
tool_domain (some tool) =
    if str_eq tool ""
    then none
    else lookup (without_blanks (lower (strip tool))) source_tool_domain_hints

-- An extension of firmware has been found before, so a type of octets never says more.
mime_domain : String → Option String → String
mime_domain ext none = "document"
mime_domain ext (some mime) =
    if (contains "firmware" mime || has_prefix mime "application/octet-stream")
      && member ext (".bin" ∷ ".hex" ∷ ".elf" ∷ ".uf2" ∷ [])
    then "firmware"
    else "document"

unfoldable pub infer_domain : String → Option String → Option String → Option String → String
unfolding given tool_domain mime_domain
infer_domain filename mime source_tool domain = elim (given domain_values domain) [
  | some d ↦ d
  | none ↦ elim (tool_domain source_tool) [
    | some d ↦ d
    | none ↦ elim (hinted_domain (normalize_ext filename) domain_extension_hints) [
      | some d ↦ d
      | none ↦ mime_domain (normalize_ext filename) mime
    ]
  ]
]

type_of_domain : String → String → String
type_of_domain ext domain =
    if str_eq domain "firmware"
    then "FIRMWARE"
    else if str_eq domain "manufacturing" && member ext (".zip" ∷ ".tar" ∷ ".tgz" ∷ [])
    then "GERBER_STACK"
    else if str_eq domain "mechanical"
    then "STEP"
    else if str_eq domain "electrical"
    then (if member ext (".csv" ∷ ".xlsx" ∷ ".xls" ∷ []) then "BOM" else "OTHER")
    else "OTHER"

unfoldable pub infer_object_type : String → Option String → Option String → Option String → String
unfolding type_of_domain
infer_object_type filename domain mime source_tool =
    elim (lookup (normalize_ext filename) extension_to_type) [
      | some type ↦ type
      | none ↦
          type_of_domain (normalize_ext filename) (infer_domain filename mime source_tool domain)
    ]
