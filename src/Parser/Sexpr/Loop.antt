-- ===== src/Parser/Sexpr/Loop.antt =====
-- The steps of the loop of parser/pral/core/sexpr.py's _tokenize, without its fuel.
use Prim.Native.Char.{Char, code}
use hcp.Prelude.{
  ℕ, zero, suc, ◌≤◌, ◌<◌, String, ◌≡◌, refl, false, arith, ap, ◌==◌, Bool-cases, inl, inr,
}
use hcp.Parser.Sexpr.{
  is_space, is_stop, scan_quoted, scan_bare, push, tokenize_from, tokenize, count,
}
use hcp.Parser.Sexpr.Total.{count-scan_quoted, count-scan_bare}

-- Fuel above the length of the text does not count.
tokenize_from_fuel :
    (f g : ℕ) (s : String) → count s < f → count s < g → tokenize_from f s ≡ tokenize_from g s
unfolding tokenize_from
tokenize_from_fuel zero g s h k = absurd (omega arith)
tokenize_from_fuel (suc f) zero s h k = absurd (omega arith)
tokenize_from_fuel (suc f) (suc g) String.[] h k = refl
tokenize_from_fuel (suc f) (suc g) (String.◌∷◌ c s) h k =
    let q : count (scan_quoted s).1 ≤ count s = count-scan_quoted s in
    let b : count (scan_bare s).1 ≤ count s = count-scan_bare s in
    let next = tokenize_from_fuel f g s (omega arith) (omega arith) in
    let quoted = tokenize_from_fuel f g ((scan_quoted s).1) (omega arith) (omega arith) in
    let bare = tokenize_from_fuel f g ((scan_bare s).1) (omega arith) (omega arith) in
    elim (Bool-cases (is_space c)) [
      | inl a ↦ rw a next
      | inr a ↦ rw a elim (Bool-cases (code c == b'(')) [
        | inl o ↦ rw o (ap (push _) next)
        | inr o ↦ rw o elim (Bool-cases (code c == b')')) [
          | inl d ↦ rw d (ap (push _) next)
          | inr d ↦ rw d elim (Bool-cases (code c == 34)) [
            | inl e ↦ rw e (ap (push _) quoted)
            | inr e ↦ rw e (ap (push _) bare)
          ]
        ]
      ]
    ]

-- Two texts, one after the other, by clauses.
abbrev pub append : String → String → String
append String.[] t = t
append (String.◌∷◌ c s) t = String.◌∷◌ c (append s t)

pub tokenize_blank : (s : String) → tokenize (append " " s) ≡ tokenize s
unfolding tokenize
tokenize_blank s = refl

pub tokenize_open : (s : String) → tokenize (append "(" s) ≡ push "(" (tokenize s)
unfolding tokenize
tokenize_open s = refl

pub tokenize_close : (s : String) → tokenize (append ")" s) ≡ push ")" (tokenize s)
unfolding tokenize
tokenize_close s = refl

-- behind an opening quote
pub tokenize_quote :
    (s : String)
    → tokenize (append "\"" s) ≡ push ((scan_quoted s).0) (tokenize ((scan_quoted s).1))
unfolding tokenize
tokenize_quote s = ap (push ((scan_quoted s).0)) (
    tokenize_from_fuel (suc (count s)) (suc (count ((scan_quoted s).1))) ((scan_quoted s).1)
      (omega (arith, count-scan_quoted s)) (omega arith))

-- a bare run, from its first character
pub tokenize_bare :
    (c : Char) (s : String)
    → is_stop c ≡ false
    → (code c == 34) ≡ false
    → tokenize (String.◌∷◌ c s) ≡ push (String.◌∷◌ c ((scan_bare s).0)) (tokenize ((scan_bare s).1))
unfolding tokenize is_stop
tokenize_bare c s h k = elim (Bool-cases (is_space c)) [
  | inl a ↦ absurd (cc (rw a at h))
  | inr a ↦ elim (Bool-cases (code c == b'(')) [
    | inl o ↦ absurd (cc (rw (a, o) at h))
    | inr o ↦ elim (Bool-cases (code c == b')')) [
      | inl d ↦ absurd (cc (rw (a, o, d) at h))
      | inr d ↦
          rw (a, o, d, k)
            (ap (push (String.◌∷◌ c ((scan_bare s).0))) (
              tokenize_from_fuel (suc (count s)) (suc (count ((scan_bare s).1))) ((scan_bare s).1)
                (omega (arith, count-scan_bare s)) (omega arith)))
    ]
  ]
]
