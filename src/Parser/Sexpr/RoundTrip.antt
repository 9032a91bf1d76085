-- ===== src/Parser/Sexpr/RoundTrip.antt =====
-- What is written down is read back by parser/pral/core/sexpr.py.
use Prim.Native.Char.{Char, code}
use hcp.Prelude.{
  ℕ, zero, suc, ◌+◌, ◌*◌, ◌<◌, String, ◌≡◌, refl, sym, ◌∙◌, ap, Bool, true, false, not, ◌&&◌,
  Option, none, some, List, [], ◌∷◌, ◌++◌, arith, length, ◌==◌, str_eq, eq_iff, Bool-cases, inl,
  inr,
}
use mathlib.Core.List.{append_assoc}
use hcp.Parser.Sexpr
use hcp.Parser.Sexpr.{
  Sexpr, is_space, is_stop, prepend, scan_quoted, scan_bare, push, tokenize, item_then, as_list,
  with_item, parse_atom, parse_tokens, parse_items, tree_of, tree_read, parse_sexpr,
}
use hcp.Parser.Sexpr.Total.{tokenize_total}
use hcp.Parser.Sexpr.Loop.{
  append, tokenize_blank, tokenize_open, tokenize_close, tokenize_quote, tokenize_bare,
}
use hcp.Parser.Sexpr.Printing.{
  Written, WrittenItems, word, quoted, list, nil, cons, escape, print, print_items, emit,
  emit_items, meaning, meanings, no_stop, is_word, is_readable, are_readable,
}

append_texts : (s t u : String) → append (append s t) u ≡ append s (append t u)
append_texts String.[] t u = refl
append_texts (String.◌∷◌ c s) t u = ap (String.◌∷◌ c) (append_texts s t u)

both : (a b : Bool) → (a && b) ≡ true → (a ≡ true) × (b ≡ true)
both a b h = ground arith

not-true : {a : Bool} → not a ≡ true → a ≡ false
not-true {a} h = ground arith

-- The scanner of quoted texts, one character at a time.
scan_quoted_plain :
    (c : Char) (t : String)
    → (code c == 92) ≡ false
    → (code c == 34) ≡ false
    → scan_quoted (String.◌∷◌ c t) ≡ prepend c (scan_quoted t)
unfolding scan_quoted
scan_quoted_plain c String.[] h k = rw k refl
scan_quoted_plain c (String.◌∷◌ d t) h k = rw (h, k) refl

scan_quoted_escaped :
    (c : Char) (t : String) → scan_quoted (append "\\" (String.◌∷◌ c t)) ≡ prepend c (scan_quoted t)
unfolding scan_quoted
scan_quoted_escaped c t = refl

scan_quoted_end : (t : String) → scan_quoted (append "\"" t) ≡ (String.[], t)
unfolding scan_quoted
scan_quoted_end String.[] = refl
scan_quoted_end (String.◌∷◌ d t) = refl

-- An escaped text is read up to the quote that closes it.
scan_quoted-escape :
    (s rest : String) → scan_quoted (append (escape s) (append "\"" rest)) ≡ (s, rest)
unfolding escape
scan_quoted-escape String.[] rest = scan_quoted_end rest
scan_quoted-escape (String.◌∷◌ c s) rest = elim (Bool-cases (code c == 34)) [
  | inl e ↦ rw (e, scan_quoted_escaped c) (ap (prepend c) (scan_quoted-escape s rest))
  | inr e ↦ elim (Bool-cases (code c == 92)) [
    | inl b ↦ rw (e, b, scan_quoted_escaped c) (ap (prepend c) (scan_quoted-escape s rest))
    | inr b ↦
        rw (e, b, scan_quoted_plain c (append (escape s) (append "\"" rest)) b e)
          (ap (prepend c) (scan_quoted-escape s rest))
  ]
]

abbrev pub stops : String → Bool
stops String.[] = true
stops (String.◌∷◌ c s) = is_stop c

scan_bare_word :
    (s rest : String) → no_stop s ≡ true → stops rest ≡ true → scan_bare (append s rest) ≡ (s, rest)
unfolding no_stop scan_bare
scan_bare_word String.[] String.[] h k = refl
scan_bare_word String.[] (String.◌∷◌ d t) h k = rw k refl
scan_bare_word (String.◌∷◌ c s) rest h k =
    let (plain, others) = both (not (is_stop c)) (no_stop s) h in
    let free : is_stop c ≡ false = not-true plain in
    rw free (ap (prepend c) (scan_bare_word s rest others k))

abbrev pushes : List String → Option (List String) → Option (List String)
pushes [] o = o
pushes (t ∷ ts) o = push t (pushes ts o)

pushes-append :
    (a b : List String) (o : Option (List String)) → pushes (a ++ b) o ≡ pushes a (pushes b o)
pushes-append [] b o = refl
pushes-append (t ∷ a) b o = ap (push t) (pushes-append a b o)

pushes-some : (a b : List String) → pushes a (some b) ≡ some (a ++ b)
pushes-some [] b = refl
pushes-some (t ∷ a) b = rw (pushes-some a b) refl

tokenize_word :
    (s rest : String)
    → is_word s ≡ true
    → stops rest ≡ true
    → tokenize (append s rest) ≡ push s (tokenize rest)
unfolding is_word
tokenize_word String.[] rest h k = absurd (cc h)
tokenize_word (String.◌∷◌ c s) rest h k =
    let (not_quote, free) = both (not (code c == 34)) (not (is_stop c) && no_stop s) h in
    let (plain, others) = both (not (is_stop c)) (no_stop s) free in
    let scanned = scan_bare_word s rest others k in
    tokenize_bare c (append s rest) (not-true plain) (not-true not_quote)
    ∙ ap (λ (p : String × String). push (String.◌∷◌ c (p.0)) (tokenize p.1)) scanned

tokenize_quoted :
    (s rest : String)
    → tokenize (append "\"" (append (append (escape s) "\"") rest)) ≡ push s (tokenize rest)
tokenize_quoted s rest =
    tokenize_quote (append (append (escape s) "\"") rest)
    ∙ ap (λ (p : String × String). push (p.0) (tokenize p.1))
        (ap scan_quoted (append_texts (escape s) "\"" rest) ∙ scan_quoted-escape s rest)

-- The tokens of a printed tree are the tokens that are meant, whatever follows it.
mutual
  unfolding print emit is_readable

  tokenize-print :
      (w : Written) (rest : String)
      → is_readable w ≡ true
      → stops rest ≡ true
      → tokenize (append (print w) rest) ≡ pushes (emit w) (tokenize rest)
  tokenize-print (word s) rest h k = tokenize_word s rest h k
  tokenize-print (quoted s) rest h k = tokenize_quoted s rest
  tokenize-print (list items) rest h k =
      tokenize_open (append (print_items items) rest)
      ∙ ap (push "(") (tokenize-print_items items rest h)

  tokenize-print_items :
      (items : WrittenItems) (rest : String)
      → are_readable items ≡ true
      → tokenize (append (print_items items) rest) ≡ pushes (emit_items items) (tokenize rest)
  tokenize-print_items nil rest h = tokenize_close rest
  tokenize-print_items (cons w items) rest h =
      let (here, others) = both (is_readable w) (are_readable items) h in
      let behind = append (print_items items) rest in
      ap tokenize (append_texts (print w) (append " " (print_items items)) rest)
      ∙ tokenize-print w (append " " behind) here refl
      ∙ ap (pushes (emit w)) (tokenize_blank behind ∙ tokenize-print_items items rest others)
      ∙ sym (pushes-append (emit w) (emit_items items) (tokenize rest))

length-append : (xs ys : List String) → length (xs ++ ys) ≡ length xs + length ys
length-append [] ys = omega arith
length-append (x ∷ xs) ys = omega (arith, length-append xs ys)

length-emit : (w : Written) → 0 < length (emit w)
unfolding emit
length-emit (word s) = omega arith
length-emit (quoted s) = omega arith
length-emit (list items) = omega arith

-- A text of which a test holds that fails at `t` is not `t`.
differs : (p : String → Bool) (s t : String) → p s ≡ true → p t ≡ false → str_eq s t ≡ false
differs p s t h k = elim (Bool-cases (str_eq s t)) [
  | inl e ↦ absurd (cc (sym h ∙ ap p ((eq_iff s t).0 e) ∙ k))
  | inr e ↦ e
]

atom_read :
    (f : ℕ) (s : String) (rest : List String)
    → str_eq s "(" ≡ false
    → parse_tokens (suc f) (s ∷ rest) ≡ some (parse_atom s, rest)
unfolding parse_tokens
atom_read f s rest h = rw h refl

list_read :
    (f : ℕ) (rest : List String) → parse_tokens (suc f) ("(" ∷ rest) ≡ as_list (parse_items f rest)
unfolding parse_tokens
list_read f rest = refl

item_read :
    (f : ℕ) (s : String) (rest : List String)
    → str_eq s ")" ≡ false
    → parse_items (suc f) (s ∷ rest) ≡ item_then (parse_items f) (parse_tokens f (s ∷ rest))
unfolding parse_tokens
item_read f s rest h = rw h refl

items_end : (f : ℕ) (rest : List String) → parse_items (suc f) (")" ∷ rest) ≡ some (Sexpr.nil, rest)
unfolding parse_tokens
items_end f rest = refl

-- No tree that is printed starts like the end of a list.
item_read-emit :
    (w : Written) (f : ℕ) (rest : List String)
    → is_readable w ≡ true
    → parse_items (suc f) (emit w ++ rest)
      ≡ item_then (parse_items f) (parse_tokens f (emit w ++ rest))
unfolding emit is_readable
item_read-emit (word s) f rest h = item_read f s rest (differs is_word s ")" h refl)
item_read-emit (quoted s) f rest h =
    let (no_open, no_close) = both (not (str_eq s "(")) (not (str_eq s ")")) h in
    item_read f s rest (not-true no_close)
item_read-emit (list items) f rest h = item_read f "(" (emit_items items ++ rest) refl

-- With two units of fuel for each token, the tree of what is printed is read from the front.
mutual
  unfolding emit is_readable meaning

  parse_tokens-emit :
      (w : Written) (f : ℕ) (rest : List String)
      → is_readable w ≡ true
      → 2 * length (emit w) < f
      → parse_tokens f (emit w ++ rest) ≡ some (meaning w, rest)
  parse_tokens-emit w zero rest h k = absurd (omega arith)
  parse_tokens-emit (word s) (suc f) rest h k = atom_read f s rest (differs is_word s "(" h refl)
  parse_tokens-emit (quoted s) (suc f) rest h k =
      let (no_open, no_close) = both (not (str_eq s "(")) (not (str_eq s ")")) h in
      atom_read f s rest (not-true no_open)
  parse_tokens-emit (list items) (suc f) rest h k =
      list_read f (emit_items items ++ rest)
      ∙ ap as_list (parse_items-emit_items items f rest h (omega arith))

  parse_items-emit_items :
      (items : WrittenItems) (f : ℕ) (rest : List String)
      → are_readable items ≡ true
      → 2 * length (emit_items items) + 1 < f
      → parse_items f (emit_items items ++ rest) ≡ some (meanings items, rest)
  parse_items-emit_items items zero rest h k = absurd (omega arith)
  parse_items-emit_items nil (suc f) rest h k = items_end f rest
  parse_items-emit_items (cons w items) (suc f) rest h k =
      let (here, others) = both (is_readable w) (are_readable items) h in
      let behind = emit_items items ++ rest in
      let lengths = length-append (emit w) (emit_items items) in
      let some_token = length-emit w in
      ap (parse_items (suc f)) (append_assoc (emit w) (emit_items items) rest)
      ∙ item_read-emit w f behind here
      ∙ ap (item_then (parse_items f)) (parse_tokens-emit w f behind here (omega arith))
      ∙ ap (with_item (meaning w)) (parse_items-emit_items items f rest others (omega arith))

tokens_read :
    (text : String) (tokens : List String)
    → tokenize text ≡ some tokens
    → parse_sexpr text ≡ tree_of tokens
unfolding parse_sexpr
tokens_read text tokens e =
    ap (λ o. elim o as (λ _. Option Sexpr) [ none ↦ none | some ts ↦ tree_of ts ]) e

-- What is written down and may be read is read back: parse_sexpr gives the tree that is meant,
-- whatever stands behind it from a blank or a parenthesis on.
pub parse_sexpr-print :
    (w : Written) (rest : String)
    → is_readable w ≡ true
    → stops rest ≡ true
    → parse_sexpr (append (print w) rest) ≡ some (meaning w)
unfolding tree_of
parse_sexpr-print w rest h k =
    let (behind, e) = tokenize_total rest in
    let tokens = tokenize-print w rest h k ∙ ap (pushes (emit w)) e ∙ pushes-some (emit w) behind in
    let enough = length-append (emit w) behind in
    let tree = parse_tokens-emit w (2 * length (emit w ++ behind) + 1) behind h (omega arith) in
    tokens_read (append (print w) rest) (emit w ++ behind) tokens ∙ ap tree_read tree

tree_of_closed : (tokens : List String) → tree_of ("(" ∷ ")" ∷ tokens) ≡ some (Sexpr.list Sexpr.nil)
unfolding tree_of
tree_of_closed tokens =
    let fuel : 2 * length ("(" ∷ ")" ∷ tokens) + 1 ≡ suc (suc (2 * length tokens + 3)) =
      omega arith in
    ap tree_read (
      ap (λ f. parse_tokens f ("(" ∷ ")" ∷ tokens)) fuel
      ∙ list_read (suc (2 * length tokens + 3)) (")" ∷ tokens)
      ∙ ap as_list (items_end (2 * length tokens + 3) tokens))

-- A quoted closing parenthesis is not read as a text: it closes the list that it opens, and the items
-- behind it in the list are not in the tree.
pub quoted_parenthesis_closes :
    (items : WrittenItems) (rest : String)
    → parse_sexpr (append (print (list (cons (quoted ")") items))) rest)
      ≡ some (Sexpr.list Sexpr.nil)
unfolding print escape
quoted_parenthesis_closes items rest =
    let behind = append (print_items items) rest in
    let (ts, e) = tokenize_total behind in
    tokens_read (append (print (list (cons (quoted ")") items))) rest) ("(" ∷ ")" ∷ ts) (
      tokenize_open (append "\")\" " behind)
      ∙ ap (push "(")
          (tokenize_quoted ")" (append " " behind) ∙ ap (push ")") (tokenize_blank behind ∙ e)))
    ∙ tree_of_closed ts
