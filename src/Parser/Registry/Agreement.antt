-- ===== src/Parser/Registry/Agreement.antt =====
-- The parser that parser/pral/registry.py picks, against api/app/services/object_types.py.
use hcp.Prelude.{
  ℕ, String, ◌≡◌, refl, sym, ◌∙◌, ap, subst, Option, none, some, List, [], ◌∷◌, str_eq, eq_iff,
  Bool-cases, Option-cases, inl, inr,
}
use hcp.Text.{lower, suffix, member}
use hcp.ObjectTypes
use hcp.ObjectTypes.{lookup, extension_to_type, normalize_ext, infer_object_type, hinted_domain}
use hcp.Parser.Plugin
use hcp.Parser.Registry.{
  ParserClass, LoadedPlugin, kicad_pcb_parser, kicad_schematic_parser, gerber_parser, step_parser,
  bom_parser, firmware_store, pdf_store, raw_store, file_type, extension_registry, registered,
  match_loaded_plugin, sniff_parser, resolve_parser,
}

module _ {V W : Type 0} (R : W → V → Type 0) (b : List (String × W)) where
  -- Each key of the table has an entry in `b` that is related to its own.
  abbrev AllRelated : List (String × V) → Type 0
  AllRelated [] = Unit {0}
  AllRelated ((k, v) ∷ a) = ((w : W) × (lookup k b ≡ some w) × R w v) × AllRelated a

  related_entry :
      (a : List (String × V))
      → AllRelated a
      → (e : String) (v : V) → lookup e a ≡ some v
      → (w : W) × (lookup e b ≡ some w) × R w v
  unfolding lookup
  related_entry [] all e v h = let k : ◌≡◌ {A = Option V} none (some v) = h in absurd (cc k)
  related_entry ((k, u) ∷ a) (here, all) e v h = elim (Bool-cases (str_eq k e)) [
    | inl same ↦
        let found : some u ≡ some v = rw same at h in
        let value : u ≡ v = cc found in
        let key : k ≡ e = (eq_iff k e).0 same in
        let (w, at_key, r) = here in
        (w, ap (λ x. lookup x b) (sym key) ∙ at_key, subst (λ x. R w x) value r)
    | inr other ↦ related_entry a all e v (rw other at h)
  ]

-- The types of the API, with the parsers for the same extensions.
types_have_parsers :
    (vendor : String → String)
    → AllRelated
        (λ (c : ParserClass) (t : String). file_type vendor c ≡ t)
        extension_registry
        extension_to_type
unfolding lookup file_type
types_have_parsers vendor = (
  (kicad_pcb_parser, refl, refl),
  (
    (kicad_schematic_parser, refl, refl),
    (
      (step_parser, refl, refl),
      (
        (step_parser, refl, refl),
        (
          (step_parser, refl, refl),
          (
            (gerber_parser, refl, refl),
            (
              (gerber_parser, refl, refl),
              (
                (gerber_parser, refl, refl),
                (
                  (gerber_parser, refl, refl),
                  (
                    (gerber_parser, refl, refl),
                    (
                      (gerber_parser, refl, refl),
                      (
                        (gerber_parser, refl, refl),
                        (
                          (gerber_parser, refl, refl),
                          (
                            (bom_parser, refl, refl),
                            (
                              (bom_parser, refl, refl),
                              (
                                (bom_parser, refl, refl),
                                (
                                  (firmware_store, refl, refl),
                                  (
                                    (firmware_store, refl, refl),
                                    (
                                      (firmware_store, refl, refl),
                                      ((firmware_store, refl, refl), ((pdf_store, refl, refl), tt)),
                                    ),
                                  ),
                                ),
                              ),
                            ),
                          ),
                        ),
                      ),
                    ),
                  ),
                ),
              ),
            ),
          ),
        ),
      ),
    ),
  ),
)

parsers_have_types :
    AllRelated (λ (t : String) (c : ParserClass). Unit {0}) extension_to_type extension_registry
unfolding lookup
parsers_have_types = (
  ("PCB", refl, tt),
  (
    ("SCHEMATIC", refl, tt),
    (
      ("GERBER_STACK", refl, tt),
      (
        ("GERBER_STACK", refl, tt),
        (
          ("GERBER_STACK", refl, tt),
          (
            ("GERBER_STACK", refl, tt),
            (
              ("GERBER_STACK", refl, tt),
              (
                ("GERBER_STACK", refl, tt),
                (
                  ("GERBER_STACK", refl, tt),
                  (
                    ("GERBER_STACK", refl, tt),
                    (
                      ("STEP", refl, tt),
                      (
                        ("STEP", refl, tt),
                        (
                          ("STEP", refl, tt),
                          (
                            ("BOM", refl, tt),
                            (
                              ("BOM", refl, tt),
                              (
                                ("BOM", refl, tt),
                                (
                                  ("FIRMWARE", refl, tt),
                                  (
                                    ("FIRMWARE", refl, tt),
                                    (
                                      ("FIRMWARE", refl, tt),
                                      (("FIRMWARE", refl, tt), (("PDF", refl, tt), tt)),
                                    ),
                                  ),
                                ),
                              ),
                            ),
                          ),
                        ),
                      ),
                    ),
                  ),
                ),
              ),
            ),
          ),
        ),
      ),
    ),
  ),
)

-- An extension that the API does not know has no parser.
unknown_has_no_parser :
    (ext : String) → lookup ext extension_to_type ≡ none → registered ext ≡ raw_store
unfolding registered
unknown_has_no_parser ext h = elim (Option-cases (lookup ext extension_registry)) [
  | inl e ↦ rw (e, registered) refl
  | inr (c, e) ↦
      let (t, found, _) =
        related_entry (λ (t : String) (c : ParserClass). Unit {0}) extension_to_type
          extension_registry parsers_have_types ext c e in
      let k : ◌≡◌ {A = Option String} none (some t) = sym h ∙ found in absurd (cc k)
]

known_has_parser :
    (vendor : String → String) (ext t : String)
    → lookup ext extension_to_type ≡ some t
    → file_type vendor (registered ext) ≡ t
unfolding registered
known_has_parser vendor ext t h =
    let (c, at_c, type) =
      related_entry (λ (c : ParserClass) (t : String). file_type vendor c ≡ t) extension_registry
        extension_to_type (types_have_parsers vendor) ext t h in
    rw (at_c, registered) type

resolve_parser-registered :
    (plugins : List LoadedPlugin) (filename : String) (file_bytes : List ℕ) (tool : Option String)
    → match_loaded_plugin plugins tool (lower (suffix filename)) ≡ none
    → sniff_parser file_bytes (lower (suffix filename)) ≡ none
    → resolve_parser plugins filename file_bytes tool ≡ registered (lower (suffix filename))
unfolding resolve_parser
resolve_parser-registered plugins filename file_bytes tool h k = rw (h, k, resolve_parser) refl

resolve_parser_normalized :
    (plugins : List LoadedPlugin) (filename : String) (file_bytes : List ℕ) (tool : Option String)
    → match_loaded_plugin plugins tool (normalize_ext filename) ≡ none
    → sniff_parser file_bytes (normalize_ext filename) ≡ none
    → resolve_parser plugins filename file_bytes tool ≡ registered (normalize_ext filename)
unfolding normalize_ext
resolve_parser_normalized = resolve_parser-registered

infer_object_type_known :
    (filename t : String) (domain mime told : Option String)
    → lookup (normalize_ext filename) extension_to_type ≡ some t
    → infer_object_type filename domain mime told ≡ t
unfolding infer_object_type
infer_object_type_known filename t domain mime told h = rw (h, infer_object_type) refl

-- Where no plugin serves a file and no magic is found in it, its parser is the one for the type that
-- the API gives it by its extension, and the raw store where the API knows no type by the extension,
-- whatever domain, MIME type and tool the API was told.
pub resolve_parser-infer_object_type :
    (vendor : String → String) (plugins : List LoadedPlugin) (filename : String)
    (file_bytes : List ℕ) (tool domain mime told : Option String)
    → match_loaded_plugin plugins tool (normalize_ext filename) ≡ none
    → sniff_parser file_bytes (normalize_ext filename) ≡ none
    → ((t : String)
        → lookup (normalize_ext filename) extension_to_type ≡ some t
        → file_type vendor (resolve_parser plugins filename file_bytes tool)
          ≡ infer_object_type filename domain mime told)
      × (lookup (normalize_ext filename) extension_to_type ≡ none
          → resolve_parser plugins filename file_bytes tool ≡ raw_store)
resolve_parser-infer_object_type vendor plugins filename file_bytes tool domain mime told h k =
    let ext = normalize_ext filename in
    let picked = resolve_parser_normalized plugins filename file_bytes tool h k in
    (
      λ t e.
          ap (file_type vendor) picked
          ∙ known_has_parser vendor ext t e
          ∙ sym (infer_object_type_known filename t domain mime told e),
      λ e. picked ∙ unknown_has_no_parser ext e,
    )

-- A file whose extension is ".schdoc", in either case, is a document to the API and electrical to the
-- parsers, where nothing else is said of it.
pub schdoc_domains_differ :
    (filename : String)
    → normalize_ext filename ≡ ".schdoc"
    → (ObjectTypes.infer_domain filename none none none ≡ "document")
      × (Plugin.infer_domain (normalize_ext filename) none ≡ some "electrical")
unfolding ObjectTypes.infer_domain Plugin.infer_domain hinted_domain member
schdoc_domains_differ filename h =
    (rw (h, ObjectTypes.infer_domain) refl, rw (h, Plugin.infer_domain) refl)
