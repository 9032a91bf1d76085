-- ===== src/Parser/Sexpr/Find.antt =====
-- What parser/pral/core/sexpr.py's sexpr_find finds.
use hcp.Prelude.{
  Listed, Listed-append, String, ◌≡◌, sym, subst, ◌↔◌, ◌⊎◌, true, List, [], ◌∷◌, ◌++◌, Bool-cases,
  inl, inr,
}
use hcp.Parser.Sexpr.{Items, int, float, str, list, nil, cons, has_head, sexpr_find, find_below}

-- `n` is a list inside `outer`, at any depth.
abbrev pub Below : Items → Items → Type 0
Below n nil = ⊥
Below n (cons (list inner) rest) = (inner ≡ n) ⊎ (Below n inner ⊎ Below n rest)
Below n (cons _ rest) = Below n rest

append-Found_left : (n : Items) (a b : List Items) → Listed n a → Listed n (a ++ b)
append-Found_left n [] b h = elim h [ ]
append-Found_left n (m ∷ a) b (inl e) = inl e
append-Found_left n (m ∷ a) b (inr h) = inr (append-Found_left n a b h)

append-Found_right : (n : Items) (a b : List Items) → Listed n b → Listed n (a ++ b)
append-Found_right n [] b h = h
append-Found_right n (m ∷ a) b h = inr (append-Found_right n a b h)

abbrev Matches : String → Items → Items → Type 0
Matches head n inner = ((inner ≡ n) ⊎ Below n inner) × (has_head head n ≡ true)

-- What is found in a list is the list itself or was found below it, and back.
Listed-whole :
    (head : String) (n inner : Items)
    → (Listed n (find_below inner head) → Below n inner × (has_head head n ≡ true))
    → Listed n (sexpr_find (list inner) head)
    → Matches head n inner
unfolding sexpr_find
Listed-whole head n inner below h = elim (Bool-cases (has_head head inner)) [
  | inl e ↦ elim (rw e at h) [
    | inl same ↦ (inl same, subst (λ m. has_head head m ≡ true) same e)
    | inr inside ↦ let (at_, k) = below inside in (inr at_, k)
  ]
  | inr e ↦ let (at_, k) = below (rw e at h) in (inr at_, k)
]

whole-Listed :
    (head : String) (n inner : Items)
    → (Below n inner → Listed n (find_below inner head))
    → has_head head n ≡ true
    → (inner ≡ n) ⊎ Below n inner
    → Listed n (sexpr_find (list inner) head)
unfolding sexpr_find
whole-Listed head n inner below h (inl same) =
    rw (subst (λ m. has_head head m ≡ true) (sym same) h) (inl same)
whole-Listed head n inner below h (inr inside) = elim (Bool-cases (has_head head inner)) [
  | inl e ↦ rw e (inr (below inside))
  | inr e ↦ rw e (below inside)
]

find_below_sound :
    (head : String) (n outer : Items)
    → Listed n (find_below outer head)
    → Below n outer × (has_head head n ≡ true)
unfolding sexpr_find
find_below_sound head n nil h = absurd h
find_below_sound head n (cons (list inner) rest) h =
    elim (Listed-append n (sexpr_find (list inner) head) (find_below rest head) h) [
      | inl here ↦
          let (at_, e) = Listed-whole head n inner (find_below_sound head n inner) here in
          (elim at_ [ inl same ↦ inl same | inr below ↦ inr (inl below) ], e)
      | inr later ↦ let (at_, e) = find_below_sound head n rest later in (inr (inr at_), e)
    ]
find_below_sound head n (cons (int _) rest) h = find_below_sound head n rest h
find_below_sound head n (cons (float _) rest) h = find_below_sound head n rest h
find_below_sound head n (cons (str _) rest) h = find_below_sound head n rest h

find_below_complete :
    (head : String) (n outer : Items)
    → has_head head n ≡ true
    → Below n outer
    → Listed n (find_below outer head)
unfolding sexpr_find
find_below_complete head n nil h at_ = elim at_ [ ]
find_below_complete head n (cons (list inner) rest) h at_ =
    let below = find_below_complete head n inner h in
    let found = sexpr_find (list inner) head in
    elim at_ [
      | inl same ↦
          append-Found_left n found (find_below rest head)
            (whole-Listed head n inner below h (inl same))
      | inr (inl inside) ↦
          append-Found_left n found (find_below rest head)
            (whole-Listed head n inner below h (inr inside))
      | inr (inr later) ↦
          append-Found_right n found (find_below rest head)
            (find_below_complete head n rest h later)
    ]
find_below_complete head n (cons (int _) rest) h at_ = find_below_complete head n rest h at_
find_below_complete head n (cons (float _) rest) h at_ = find_below_complete head n rest h at_
find_below_complete head n (cons (str _) rest) h at_ = find_below_complete head n rest h at_

-- sexpr_find gives the lists that the name opens, at any depth of the tree and the tree included, and
-- no others.
pub sexpr_find_exact :
    (head : String) (n tree : Items)
    → Listed n (sexpr_find (list tree) head)
      ↔ (((tree ≡ n) ⊎ Below n tree) × (has_head head n ≡ true))
sexpr_find_exact head n tree = (
  Listed-whole head n tree (find_below_sound head n tree),
  λ (at_, h). whole-Listed head n tree (find_below_complete head n tree h) h at_,
)
