-- ===== src/Parser/Sexpr/Numbers.antt =====
-- Which texts Python's `int` and `float` read, as far as parser/pral/core/sexpr.py uses them: ASCII
-- digits with single underscores between them, a sign, and white space around the number.
use Prim.Native.Char.{Char, code}
use hcp.Prelude.{
  ℕ, zero, suc, ◌+◌, ◌-◌, ◌*◌, String, Bool, true, false, ◌&&◌, ◌||◌, Option, none, some, ℤ, pos,
  negsuc, ◌==◌, leb, if◌then◌else◌,
}
use hcp.Text.{strip}

is_digit : Char → Bool
is_digit c = leb b'0' (code c) && leb (code c) b'9'

-- The value of digits; `after` says that a digit stands before.
digits_from : ℕ → Bool → String → Option ℕ
unfolding is_digit
digits_from acc after String.[] = if after then some acc else none
digits_from acc after (String.◌∷◌ c s) =
    let digit = digits_from (acc * 10 + (code c - b'0')) true s in
    let underscore = digits_from acc false s in
    if is_digit c then digit else if (code c == b'_') && after then underscore else none

minus : ℕ → ℤ
minus zero = pos 0
minus (suc n) = negsuc n

-- int(text), with `none` for a ValueError
unfoldable pub int_of : String → Option ℤ
unfolding digits_from minus
int_of text = signed (strip text)
  where
    positive : Option ℕ → Option ℤ
    positive none = none
    positive (some n) = some (pos n)

    negative : Option ℕ → Option ℤ
    negative none = none
    negative (some n) = some (minus n)

    signed : String → Option ℤ
    signed String.[] = none
    signed (String.◌∷◌ c s) =
        if code c == b'-'
        then negative (digits_from 0 false s)
        else if code c == b'+'
        then positive (digits_from 0 false s)
        else positive (digits_from 0 false (String.◌∷◌ c s))

-- "." in token or "e" in token.lower()
unfoldable pub has_exponent_or_point : String → Bool
has_exponent_or_point String.[] = false
has_exponent_or_point (String.◌∷◌ c s) =
    ((code c == b'.') || ((code c == b'e') || (code c == b'E'))) || has_exponent_or_point s

-- what follows the digits, one of which has been read
more_digits : String → Option String
unfolding is_digit
more_digits String.[] = some String.[]
more_digits (String.◌∷◌ c String.[]) =
    if is_digit c then some String.[] else some (String.◌∷◌ c String.[])
more_digits (String.◌∷◌ c (String.◌∷◌ d s)) =
    let behind = more_digits (String.◌∷◌ d s) in
    if is_digit c
    then behind
    else if code c == b'_'
    then (if is_digit d then behind else none)
    else some (String.◌∷◌ c (String.◌∷◌ d s))

-- what follows a run of one digit or more
digit_part : String → Option String
unfolding is_digit more_digits
digit_part String.[] = none
digit_part (String.◌∷◌ c s) = if is_digit c then more_digits s else none

drop_sign : String → String
drop_sign String.[] = String.[]
drop_sign (String.◌∷◌ c s) = if (code c == b'-') || (code c == b'+') then s else String.◌∷◌ c s

is_end : Option String → Bool
is_end (some String.[]) = true
is_end _ = false

is_exponent : String → Bool
unfolding digit_part drop_sign is_end
is_exponent String.[] = true
is_exponent (String.◌∷◌ c s) =
    ((code c == b'e') || (code c == b'E')) && is_end (digit_part (drop_sign s))

-- behind the digits before the point
is_fraction : String → Bool
unfolding digit_part is_exponent
is_fraction String.[] = true
is_fraction (String.◌∷◌ c s) =
    if code c == b'.'
    then elim (digit_part s) [ none ↦ is_exponent s | some t ↦ is_exponent t ]
    else is_exponent (String.◌∷◌ c s)

starts_at_point : String → Bool
unfolding digit_part is_exponent
starts_at_point String.[] = false
starts_at_point (String.◌∷◌ c s) =
    (code c == b'.') && (elim (digit_part s) [ none ↦ false | some t ↦ is_exponent t ])

-- float(text) does not raise; texts without a point and an `e` are not asked about
unfoldable pub is_float : String → Bool
unfolding drop_sign digit_part is_fraction starts_at_point
is_float text =
    let number = drop_sign (strip text) in
    elim (digit_part number) [ none ↦ starts_at_point number | some t ↦ is_fraction t ]
