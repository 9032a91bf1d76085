-- ===== src/Text.antt =====
-- What the program uses of Python's `str`, `bytes` and `pathlib`, for ASCII text.
use Prim.Native.Char.{Char, code}
use hcp.Prelude.{
  ℕ, String, Bool, true, false, ◌&&◌, ◌||◌, ◌-◌, List, [], ◌∷◌, ◌==◌, leb, str_eq, if◌then◌else◌,
}

unfoldable pub is_white : Char → Bool
is_white c =
    (code c == 32) || ((leb 9 (code c) && leb (code c) 13) || (leb 28 (code c) && leb (code c) 31))

unfoldable pub strip_left : String → String
unfolding is_white
strip_left String.[] = String.[]
strip_left (String.◌∷◌ c s) = let more = strip_left s in if is_white c then more else String.◌∷◌ c s

keep_right : Char → String → String
unfolding is_white
keep_right c String.[] = if is_white c then String.[] else String.◌∷◌ c String.[]
keep_right c (String.◌∷◌ d t) = String.◌∷◌ c (String.◌∷◌ d t)

strip_right : String → String
unfolding keep_right
strip_right String.[] = String.[]
strip_right (String.◌∷◌ c s) = keep_right c (strip_right s)

-- text.strip()
unfoldable pub strip : String → String
unfolding strip_left strip_right
strip s = strip_left (strip_right s)

-- The character that stands in `to` where `c` stands in `from`, or `c`.
translate : String → String → Char → Char
translate (String.◌∷◌ a as_) (String.◌∷◌ b bs) c =
    let rest = translate as_ bs c in if code a == code c then b else rest
translate _ _ c = c

-- text.lower()
unfoldable pub lower : String → String
unfolding translate
lower String.[] = String.[]
lower (String.◌∷◌ c s) =
    String.◌∷◌ (translate "ABCDEFGHIJKLMNOPQRSTUVWXYZ" "abcdefghijklmnopqrstuvwxyz" c) (lower s)

-- text.upper()
unfoldable pub upper : String → String
unfolding translate
upper String.[] = String.[]
upper (String.◌∷◌ c s) =
    String.◌∷◌ (translate "abcdefghijklmnopqrstuvwxyz" "ABCDEFGHIJKLMNOPQRSTUVWXYZ" c) (upper s)

-- text.startswith(start)
unfoldable pub has_prefix : String → String → Bool
has_prefix s String.[] = true
has_prefix String.[] (String.◌∷◌ d t) = false
has_prefix (String.◌∷◌ c s) (String.◌∷◌ d t) = (code c == code d) && has_prefix s t

-- part in text
unfoldable pub contains : String → String → Bool
unfolding has_prefix
contains part String.[] = has_prefix String.[] part
contains part (String.◌∷◌ c s) = has_prefix (String.◌∷◌ c s) part || contains part s

-- text.replace(" ", "")
unfoldable pub without_blanks : String → String
without_blanks String.[] = String.[]
without_blanks (String.◌∷◌ c s) =
    let rest = without_blanks s in if code c == b' ' then rest else String.◌∷◌ c rest

unfoldable pub append : String → String → String
append String.[] t = t
append (String.◌∷◌ c s) t = String.◌∷◌ c (append s t)

-- `part` unless the path ends in no name there
later : String → String → String
later name part = if str_eq part "" || str_eq part "." then name else part

-- Path(text).name, where `name` is the last component so far and `part` what is read of the next
name_from : String → String → String → String
unfolding later append
name_from name part String.[] = later name part
name_from name part (String.◌∷◌ c s) =
    if code c == b'/'
    then name_from (later name part) "" s
    else name_from name (append part (String.◌∷◌ c String.[])) s

-- what stands from the last point on, or nothing
from_point : String → String
from_point String.[] = String.[]
from_point (String.◌∷◌ c s) =
    let later_point = from_point s in
    if str_eq later_point "" then (if code c == b'.' then String.◌∷◌ c s else "") else later_point

-- The point is neither the first character nor the last.
suffix_of : String → String
unfolding from_point
suffix_of String.[] = String.[]
suffix_of (String.◌∷◌ c s) = let found = from_point s in if str_eq found "." then "" else found

-- Path(filename).suffix
unfoldable pub suffix : String → String
unfolding name_from suffix_of
suffix filename = suffix_of (name_from "" "" filename)

-- The bytes of an ASCII text.
abbrev pub codes : String → List ℕ
codes String.[] = []
codes (String.◌∷◌ c s) = code c ∷ codes s

-- bytes.startswith(start)
unfoldable pub bytes_prefix : List ℕ → List ℕ → Bool
bytes_prefix b [] = true
bytes_prefix [] (y ∷ t) = false
bytes_prefix (x ∷ b) (y ∷ t) = (x == y) && bytes_prefix b t

-- part in bytes
unfoldable pub bytes_contain : List ℕ → List ℕ → Bool
unfolding bytes_prefix
bytes_contain part [] = bytes_prefix [] part
bytes_contain part (x ∷ b) = bytes_prefix (x ∷ b) part || bytes_contain part b

-- bytes.upper()
unfoldable pub bytes_upper : List ℕ → List ℕ
bytes_upper [] = []
bytes_upper (x ∷ b) = (if leb b'a' x && leb x b'z' then x - 32 else x) ∷ bytes_upper b

-- text in a collection of texts
unfoldable pub member : String → List String → Bool
member s [] = false
member s (t ∷ ts) = str_eq t s || member s ts
