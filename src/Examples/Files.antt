-- ===== src/Examples/Files.antt =====
-- S-expressions, boards and bills of materials, at concrete texts.
use hcp.Prelude.{Listed, String, ◌≡◌, refl, ◌↔◌, ◌⊎◌, true, none, some, [], ◌∷◌, pos}
use hcp.Text.{contains, lower, suffix, codes}
use hcp.ObjectTypes.{lookup, extension_to_type, normalize_ext, infer_object_type}
use hcp.Parser.Sexpr
use hcp.Parser.Sexpr.{Sexpr, parse_atom, parse_sexpr, sexpr_find, has_head}
use hcp.Parser.Sexpr.Total.{Some, parse_sexpr_total}
use hcp.Parser.Sexpr.Loop.{append}
use hcp.Parser.Sexpr.Printing.{Written, word, quoted, list, nil, cons, print, meaning, is_readable}
use hcp.Parser.Sexpr.RoundTrip.{parse_sexpr-print, quoted_parenthesis_closes}
use hcp.Parser.Sexpr.Find.{Below, sexpr_find_exact}
use hcp.Json.{null}
use hcp.Parser.Plugin.{ParseContext}
use hcp.Parser.Kicad.Board.{parse}
use hcp.Parser.Kicad.Integers.{integer_property_lost, one_footprint, without_value}
use hcp.Parser.Registry.{file_type, raw_store, match_loaded_plugin, sniff_parser, resolve_parser}
use hcp.Parser.Registry.Agreement.{resolve_parser-infer_object_type}

-- (property "Value" "4.7 \"k\"" (at 10 20))
abbrev property : Written
property = list (
    cons (word "property") (
      cons (quoted "Value") (
        cons (quoted "a \"k\"")
          (cons (list (cons (word "at") (cons (word "10") (cons (word "-2.5") nil)))) nil))))

parse_sexpr-print_example : parse_sexpr (append (print property) ") x") ≡ some (meaning property)
unfolding is_readable
parse_sexpr-print_example = parse_sexpr-print property ") x" refl refl

read_back :
    meaning property
    ≡ Sexpr.list (
        Sexpr.cons (Sexpr.str "property") (
          Sexpr.cons (Sexpr.str "Value") (
            Sexpr.cons (Sexpr.str "a \"k\"") (
              Sexpr.cons
                (Sexpr.list (
                  Sexpr.cons
                    (Sexpr.str "at")
                    (Sexpr.cons (Sexpr.int (pos 10)) (Sexpr.cons (Sexpr.float "-2.5") Sexpr.nil))))
                Sexpr.nil))))
unfolding meaning parse_atom hcp.Parser.Sexpr.Numbers.has_exponent_or_point
    hcp.Parser.Sexpr.Numbers.is_float hcp.Parser.Sexpr.Numbers.int_of hcp.Text.strip
read_back = refl

parse_sexpr_total_example : Some (parse_sexpr "(a \"b")
parse_sexpr_total_example = parse_sexpr_total "(a \"b"

unclosed :
    parse_sexpr "(a \"b"
    ≡ some (Sexpr.list (Sexpr.cons (Sexpr.str "a") (Sexpr.cons (Sexpr.str "b") Sexpr.nil)))
unfolding parse_sexpr Sexpr.tokenize Sexpr.tree_of Sexpr.parse_tokens parse_atom
    hcp.Parser.Sexpr.Numbers.has_exponent_or_point hcp.Parser.Sexpr.Numbers.int_of hcp.Text.strip
unclosed = refl

quoted_parenthesis_closes_example :
    parse_sexpr (append (print (list (cons (quoted ")") (cons (word "lost") nil)))) "")
    ≡ some (Sexpr.list Sexpr.nil)
quoted_parenthesis_closes_example = quoted_parenthesis_closes (cons (word "lost") nil) ""

-- (footprint "R" (property "Reference" "R1"))
abbrev footprint : Sexpr.Items
footprint = Sexpr.cons (Sexpr.str "footprint") (
    Sexpr.cons (Sexpr.str "R") (
      Sexpr.cons
        (Sexpr.list (
          Sexpr.cons (Sexpr.str "property")
            (Sexpr.cons (Sexpr.str "Reference") (Sexpr.cons (Sexpr.str "R1") Sexpr.nil))))
        Sexpr.nil))

abbrev board : Sexpr.Items
board = Sexpr.cons (Sexpr.str "kicad_pcb") (
    Sexpr.cons
      (Sexpr.list (Sexpr.cons (Sexpr.str "group") (Sexpr.cons (Sexpr.list footprint) Sexpr.nil)))
      Sexpr.nil)

sexpr_find_exact_example :
    Listed footprint (sexpr_find (Sexpr.list board) "footprint")
    ↔ (((board ≡ footprint) ⊎ Below footprint board) × (has_head "footprint" footprint ≡ true))
sexpr_find_exact_example = sexpr_find_exact "footprint" footprint board

-- (symbol "Device:R") among the definitions
abbrev definition : Sexpr.Items
definition = Sexpr.cons (Sexpr.str "symbol") (Sexpr.cons (Sexpr.str "Device:R") Sexpr.nil)

abbrev file : ParseContext
file = record {
  filename = "board.kicad_pcb";
  object_id = "20";
  version_id = "21";
  source_tool = none;
  domain = none;
  representation = none;
}

-- A resistor of 100 ohms.
integer_property_lost_example :
    (parse (λ xs. null) 5 (append (print (one_footprint "R_0603" "R1" "100")) "") file).components
    ≡ without_value "R_0603" "R1" ∷ []
unfolding parse_atom is_readable hcp.Parser.Sexpr.Numbers.has_exponent_or_point
    hcp.Parser.Sexpr.Numbers.int_of hcp.Text.strip
integer_property_lost_example =
    integer_property_lost (λ xs. null) 5 file "R_0603" "R1" "100" "" (pos 100) refl refl refl refl
      refl refl

resolve_parser-infer_object_type_example :
    ((t : String)
      → lookup (normalize_ext "top/Rev.B.GTL") extension_to_type ≡ some t
      → file_type (λ id. id) (resolve_parser [] "top/Rev.B.GTL" (codes "G04*") none)
        ≡ infer_object_type "top/Rev.B.GTL" none none none)
    × (lookup (normalize_ext "top/Rev.B.GTL") extension_to_type ≡ none
        → resolve_parser [] "top/Rev.B.GTL" (codes "G04*") none ≡ raw_store)
unfolding match_loaded_plugin sniff_parser hcp.Parser.Registry.route hcp.Text.bytes_contain
    normalize_ext lower suffix
resolve_parser-infer_object_type_example =
    resolve_parser-infer_object_type (λ id. id) [] "top/Rev.B.GTL" (codes "G04*") none none none
      none refl refl
