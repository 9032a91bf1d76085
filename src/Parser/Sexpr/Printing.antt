-- ===== src/Parser/Sexpr/Printing.antt =====
-- How a tree is written down for parser/pral/core/sexpr.py: bare words, quoted texts and lists. The
-- repository has no printer; this one says what the parser is meant to read.
use Prim.Native.Char.{code}
use hcp.Prelude.{
  String, Bool, true, false, not, ◌&&◌, ◌||◌, List, [], ◌∷◌, ◌++◌, ◌==◌, str_eq, if◌then◌else◌,
}
use hcp.Parser.Sexpr
use hcp.Parser.Sexpr.{Sexpr, is_stop, parse_atom}
use hcp.Parser.Sexpr.Loop.{append}

mutual
  pub data Written : Type 0 where
    word : String → Written
    quoted : String → Written
    list : WrittenItems → Written

  pub data WrittenItems : Type 0 where
    nil : WrittenItems
    cons : Written → WrittenItems → WrittenItems

-- a backslash before each quote and each backslash
unfoldable pub escape : String → String
escape String.[] = String.[]
escape (String.◌∷◌ c s) =
    let rest = String.◌∷◌ c (escape s) in
    if (code c == 34) || (code c == 92) then append "\\" rest else rest

-- Each item of a list has a blank behind it.
unfoldable mutual
  unfolding escape

  pub print : Written → String
  print (word s) = s
  print (quoted s) = append "\"" (append (escape s) "\"")
  print (list items) = append "(" (print_items items)

  pub print_items : WrittenItems → String
  print_items nil = ")"
  print_items (cons w items) = append (print w) (append " " (print_items items))

-- the tokens of what is written
unfoldable mutual
  pub emit : Written → List String
  emit (word s) = s ∷ []
  emit (quoted s) = s ∷ []
  emit (list items) = "(" ∷ emit_items items

  pub emit_items : WrittenItems → List String
  emit_items nil = ")" ∷ []
  emit_items (cons w items) = emit w ++ emit_items items

-- the tree that is meant
unfoldable mutual
  pub meaning : Written → Sexpr
  meaning (word s) = parse_atom s
  meaning (quoted s) = parse_atom s
  meaning (list items) = Sexpr.list (meanings items)

  pub meanings : WrittenItems → Sexpr.Items
  meanings nil = Sexpr.nil
  meanings (cons w items) = Sexpr.cons (meaning w) (meanings items)

unfoldable pub no_stop : String → Bool
unfolding is_stop
no_stop String.[] = true
no_stop (String.◌∷◌ c s) = not (is_stop c) && no_stop s

-- A word is not empty, has no blank and no parenthesis in it, and does not start with a quote.
unfoldable pub is_word : String → Bool
unfolding no_stop
is_word String.[] = false
is_word (String.◌∷◌ c s) = not (code c == 34) && no_stop (String.◌∷◌ c s)

-- Words are words, and no quoted text is a single parenthesis.
unfoldable mutual
  unfolding is_word

  pub is_readable : Written → Bool
  is_readable (word s) = is_word s
  is_readable (quoted s) = not (str_eq s "(") && not (str_eq s ")")
  is_readable (list items) = are_readable items

  pub are_readable : WrittenItems → Bool
  are_readable nil = true
  are_readable (cons w items) = is_readable w && are_readable items
