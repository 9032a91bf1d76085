-- ===== src/Parser/Sexpr.antt =====
-- S-expressions as KiCad writes them: the tokens of a text, the tree of its tokens, and the
-- queries on trees, of parser/pral/core/sexpr.py.
pub mod Numbers
pub mod Total
pub mod Loop
pub mod Printing
pub mod RoundTrip
pub mod Find
use Prim.Native.Char.{Char, code}
use hcp.Prelude.{
  ℕ, zero, suc, ◌+◌, ◌*◌, String, Bool, true, false, ◌||◌, Option, none, some, List, [], ◌∷◌, ◌++◌,
  length, ℤ, ◌==◌, str_eq, if◌then◌else◌,
}
use Numbers.{is_float, has_exponent_or_point, int_of}

-- A number with a point or an exponent is kept as it is written.
mutual
  pub data Sexpr : Type 0 where
    int : ℤ → Sexpr
    float : String → Sexpr
    str : String → Sexpr
    list : Items → Sexpr

  pub data Items : Type 0 where
    nil : Items
    cons : Sexpr → Items → Items

-- len(text)
abbrev pub count : String → ℕ
count String.[] = 0
count (String.◌∷◌ c s) = suc (count s)

unfoldable pub is_space : Char → Bool
is_space c = (code c == b' ') || ((code c == 9) || ((code c == 10) || (code c == 13)))

-- what ends a bare run
unfoldable pub is_stop : Char → Bool
unfolding is_space
is_stop c = is_space c || ((code c == b'(') || (code c == b')'))

abbrev pub prepend : Char → String × String → String × String
prepend c (parts, rest) = (String.◌∷◌ c parts, rest)

-- From behind an opening quote: the text without its escapes, and what follows the closing quote.
unfoldable pub scan_quoted : String → String × String
scan_quoted String.[] = (String.[], String.[])
scan_quoted (String.◌∷◌ c String.[]) =
    if code c == 34 then (String.[], String.[]) else (String.◌∷◌ c String.[], String.[])
scan_quoted (String.◌∷◌ c (String.◌∷◌ d s)) =
    let escaped = prepend d (scan_quoted s) in
    let plain = prepend c (scan_quoted (String.◌∷◌ d s)) in
    if code c == 92 then escaped else if code c == 34 then (String.[], String.◌∷◌ d s) else plain

-- A bare run, and what follows it.
unfoldable pub scan_bare : String → String × String
unfolding is_stop
scan_bare String.[] = (String.[], String.[])
scan_bare (String.◌∷◌ c s) =
    let more = prepend c (scan_bare s) in if is_stop c then (String.[], String.◌∷◌ c s) else more

abbrev pub push {ℓ} : {A : Type ℓ} → A → Option (List A) → Option (List A)
push x none = none
push x (some xs) = some (x ∷ xs)

-- The loop of `_tokenize`; `none` means that the fuel ran out.
unfoldable pub tokenize_from : ℕ → String → Option (List String)
unfolding is_space scan_quoted scan_bare
tokenize_from zero s = none
tokenize_from (suc f) String.[] = some []
tokenize_from (suc f) (String.◌∷◌ c s) =
    let quoted = scan_quoted s in
    let bare = scan_bare (String.◌∷◌ c s) in
    let next = tokenize_from f s in
    let behind_quoted = tokenize_from f quoted.1 in
    let behind_bare = tokenize_from f bare.1 in
    if is_space c
    then next
    else if code c == b'('
    then push "(" next
    else if code c == b')'
    then push ")" next
    else if code c == 34
    then push quoted.0 behind_quoted
    else push bare.0 behind_bare

unfoldable pub tokenize : String → Option (List String)
unfolding tokenize_from
tokenize text = tokenize_from (suc (count text)) text

unfoldable pub parse_atom : String → Sexpr
parse_atom token =
    if str_eq token "yes" || str_eq token "no"
    then str token
    else if has_exponent_or_point token
    then (if is_float token then float token else str token)
    else elim (int_of token) [ none ↦ str token | some n ↦ int n ]

abbrev pub as_list : Option (Items × List String) → Option (Sexpr × List String)
as_list none = none
as_list (some (items, rest)) = some (list items, rest)

abbrev pub with_item : Sexpr → Option (Items × List String) → Option (Items × List String)
with_item item none = none
with_item item (some (items, rest)) = some (cons item items, rest)

abbrev pub item_then :
    (List String → Option (Items × List String))
    → Option (Sexpr × List String)
    → Option (Items × List String)
item_then items none = none
item_then items (some (item, behind)) = with_item item (items behind)

-- A tree from the front of the tokens, and the tokens behind it. At the end of the tokens the tree
-- is an empty list, and a list that is not closed ends there.
unfoldable mutual
  pub parse_tokens : ℕ → List String → Option (Sexpr × List String)
  parse_tokens zero tokens = none
  parse_tokens (suc f) [] = some (list nil, [])
  parse_tokens (suc f) (token ∷ rest) =
      let items = as_list (parse_items f rest) in
      if str_eq token "(" then items else some (parse_atom token, rest)

  pub parse_items : ℕ → List String → Option (Items × List String)
  parse_items zero tokens = none
  parse_items (suc f) [] = some (nil, [])
  parse_items (suc f) (token ∷ rest) =
      let more = item_then (parse_items f) (parse_tokens f (token ∷ rest)) in
      if str_eq token ")" then some (nil, rest) else more

abbrev pub tree_read : Option (Sexpr × List String) → Option Sexpr
tree_read none = none
tree_read (some (tree, behind)) = some tree

-- the tree of a text's tokens
unfoldable pub tree_of : List String → Option Sexpr
tree_of tokens = tree_read (parse_tokens (2 * length tokens + 1) tokens)

unfoldable pub parse_sexpr : String → Option Sexpr
parse_sexpr text = elim (tokenize text) [ none ↦ none | some tokens ↦ tree_of tokens ]

-- node[0] == head, of a list that is not empty
unfoldable pub has_head : String → Items → Bool
has_head head (cons (str s) rest) = str_eq s head
has_head head _ = false

-- the sublists that `head` opens, the list itself first
unfoldable mutual
  unfolding has_head

  pub sexpr_find : Sexpr → String → List Items
  sexpr_find (list items) head =
      let below = find_below items head in if has_head head items then items ∷ below else below
  sexpr_find _ head = []

  pub find_below : Items → String → List Items
  find_below nil head = []
  find_below (cons child rest) head = sexpr_find child head ++ find_below rest head

unfoldable pub sexpr_child : Items → String → Option Items
unfolding has_head
sexpr_child nil head = none
sexpr_child (cons (list items) rest) head =
    if has_head head items then some items else sexpr_child rest head
sexpr_child (cons _ rest) head = sexpr_child rest head
