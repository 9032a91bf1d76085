-- ===== src/Parser/Kicad.antt =====
-- parser/pral/core/kicad_pcb.py and kicad_sch.py. What Python decodes from the bytes, the texts of
-- a file, are the argument of `parse`.
pub mod Board
pub mod Schematic
pub mod Components
pub mod Integers
use hcp.Prelude.{
  ℕ, zero, suc, String, Bool, true, false, not, ◌&&◌, Option, none, some, List, [], ◌∷◌, str_eq,
  if◌then◌else◌,
}
use hcp.Parser.Schema.{ParsedOutput}
use hcp.Parser.Sexpr.{Sexpr, Items, int, float, str, list, nil, cons}

-- item == text
unfoldable pub is_text : String → Sexpr → Bool
is_text s (str t) = str_eq t s
is_text s _ = false

-- item if isinstance(item, str) else None
unfoldable pub text_of : Sexpr → Option String
text_of (str t) = some t
text_of _ = none

-- bool(text) of an optional text
unfoldable pub has_text : Option String → Bool
has_text none = false
has_text (some s) = not (str_eq s "")

-- items[1:]
unfoldable pub tail : Items → Items
tail nil = nil
tail (cons _ rest) = rest

-- the value of an item that is a property of that name, `none` for any other item
unfoldable pub property_at : String → Sexpr → Option (Option String)
unfolding is_text text_of
property_at key (list (cons head (cons name (cons value rest)))) =
    if is_text "property" head && is_text key name then some (text_of value) else none
property_at key _ = none

-- What an exception leaves: the output as it is by then, and its message.
unfoldable pub fail : String → ParsedOutput → ParsedOutput
fail message output = record output { errors = append output.errors }
  where
    append : List String → List String
    append [] = message ∷ []
    append (e ∷ es) = e ∷ append es
