-- ===== src/Parser/Sexpr/Total.antt =====
-- The fuel of parser/pral/core/sexpr.py's loops is enough.
use Prim.Native.Char.{code}
use hcp.Prelude.{
  ℕ, zero, suc, ◌+◌, ◌*◌, ◌≤◌, ◌<◌, String, ◌≡◌, refl, Option, some, List, [], ◌∷◌, arith, ap,
  length, ◌==◌, str_eq, Bool-cases, inl, inr,
}
use hcp.Parser.Sexpr.{
  Sexpr, Items, list, nil, cons, is_space, is_stop, scan_quoted, scan_bare, push, tokenize_from,
  tokenize, parse_atom, parse_tokens, parse_items, tree_of, tree_read, parse_sexpr, count,
}

pub count-scan_quoted : (s : String) → count ((scan_quoted s).1) ≤ count s
unfolding scan_quoted
count-scan_quoted String.[] = omega arith
count-scan_quoted (String.◌∷◌ c String.[]) = elim (Bool-cases (code c == 34)) [
  | inl e ↦ rw e (omega arith)
  | inr e ↦ rw e (omega arith)
]
count-scan_quoted (String.◌∷◌ c (String.◌∷◌ d s)) =
    let inner = count-scan_quoted s in
    let behind = count-scan_quoted (String.◌∷◌ d s) in
    elim (Bool-cases (code c == 92)) [
      | inl e ↦ rw e (omega (arith, inner))
      | inr e ↦ rw e elim (Bool-cases (code c == 34)) [
        | inl q ↦ rw q (omega arith)
        | inr q ↦ rw q (omega (arith, behind))
      ]
    ]

pub count-scan_bare : (s : String) → count ((scan_bare s).1) ≤ count s
unfolding scan_bare
count-scan_bare String.[] = omega arith
count-scan_bare (String.◌∷◌ c s) = elim (Bool-cases (is_stop c)) [
  | inl e ↦ rw e (omega arith)
  | inr e ↦ rw e (omega (arith, count-scan_bare s))
]

abbrev pub Some {ℓ} : {A : Type ℓ} → Option A → Type ℓ
Some {A = A} o = (a : A) × (o ≡ some a)

push-Some {ℓ} : {A : Type ℓ} (x : A) {o : Option (List A)} → Some o → Some (push x o)
push-Some x (xs, e) = (x ∷ xs, rw e refl)

-- `tokenize_from f` returns tokens for every text shorter than its fuel `f`.
pub tokenize_from_total : (f : ℕ) (s : String) → count s < f → Some (tokenize_from f s)
unfolding tokenize_from
tokenize_from_total zero s h = absurd (omega arith)
tokenize_from_total (suc f) String.[] h = ([], refl)
tokenize_from_total (suc f) (String.◌∷◌ c s) h =
    let next = tokenize_from_total f s (omega arith) in
    let quoted = tokenize_from_total f ((scan_quoted s).1) (omega (arith, count-scan_quoted s)) in
    let bare = tokenize_from_total f ((scan_bare s).1) (omega (arith, count-scan_bare s)) in
    elim (Bool-cases (is_space c)) [
      | inl a ↦ rw a next
      | inr a ↦ rw a elim (Bool-cases (code c == b'(')) [
        | inl b ↦ rw b (push-Some _ next)
        | inr b ↦ rw b elim (Bool-cases (code c == b')')) [
          | inl d ↦ rw d (push-Some _ next)
          | inr d ↦ rw d elim (Bool-cases (code c == 34)) [
            | inl e ↦ rw e (push-Some _ quoted)
            | inr e ↦ rw e (push-Some _ bare)
          ]
        ]
      ]
    ]

-- Every text has tokens: the fuel that `tokenize` gives its loop is enough.
pub tokenize_total : (text : String) → Some (tokenize text)
unfolding tokenize
tokenize_total text = tokenize_from_total (suc (count text)) text (omega arith)

-- What stands behind a tree is shorter than the tokens that the tree was read from.
abbrev Shorter : Option (Sexpr × List String) → ℕ → Type 0
Shorter o n = (tree : Sexpr) × (rest : List String) × (o ≡ some (tree, rest)) × (length rest ≤ n)

abbrev ShorterItems : Option (Items × List String) → ℕ → Type 0
ShorterItems o n =
    (items : Items) × (rest : List String) × (o ≡ some (items, rest)) × (length rest ≤ n)

-- By the fuel: a tree needs two units for each token, a list one more.
mutual
  unfolding parse_tokens

  parse_tokens_total :
      (f : ℕ) (t : String) (ts : List String)
      → 2 * length (t ∷ ts) < f
      → Shorter (parse_tokens f (t ∷ ts)) (length ts)
  parse_tokens_total zero t ts h = absurd (omega arith)
  parse_tokens_total (suc f) t ts h = elim (Bool-cases (str_eq t "(")) [
    | inl e ↦
        let (items, rest, eq, short) = parse_items_total f ts (omega arith) in
        (list items, rest, rw (e, eq) refl, short)
    | inr e ↦ (parse_atom t, ts, rw e refl, omega arith)
  ]

  parse_items_total :
      (f : ℕ) (ts : List String)
      → 2 * length ts + 1 < f
      → ShorterItems (parse_items f ts) (length ts)
  parse_items_total zero ts h = absurd (omega arith)
  parse_items_total (suc f) [] h = (nil, [], refl, omega arith)
  parse_items_total (suc f) (t ∷ ts) h = elim (Bool-cases (str_eq t ")")) [
    | inl e ↦ (nil, ts, rw e refl, omega arith)
    | inr e ↦
        let (item, behind, at_item, short) = parse_tokens_total f t ts (omega arith) in
        let (items, rest, at_items, shorter) = parse_items_total f behind (omega arith) in
        (cons item items, rest, rw (e, at_item, at_items) refl, omega arith)
  ]

tree_of_nil : tree_of [] ≡ some (list nil)
unfolding tree_of parse_tokens
tree_of_nil = refl

tree_of_total : (tokens : List String) → Some (tree_of tokens)
unfolding tree_of
tree_of_total [] = (list nil, tree_of_nil)
tree_of_total (t ∷ ts) =
    let (tree, rest, e, short) = parse_tokens_total (2 * length (t ∷ ts) + 1) t ts (omega arith) in
    (tree, ap tree_read e)

-- Every text has a tree, whatever it holds: the loops of parse_sexpr end and none of them fails.
pub parse_sexpr_total : (text : String) → Some (parse_sexpr text)
unfolding parse_sexpr
parse_sexpr_total text =
    let (tokens, e) = tokenize_total text in rw (e, parse_sexpr) (tree_of_total tokens)
