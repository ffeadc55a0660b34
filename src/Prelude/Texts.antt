-- ===== src/Prelude/Texts.antt =====
-- Texts as lists of code points, and the searches in them that the program uses.
use Prim.Native.Nat.{ℕ, zero, suc, ◌-◌, ◌+◌, ◌/◌, ◌%◌}
use Prim.Native.Char.{code}
use Prim.Native.String.{String, ◌++◌ as concat}
use mathlib.Core.Path.{◌≡◌, refl}
use mathlib.Core.Bool.{Bool, true, false, ◌&&◌, ◌||◌}
use mathlib.Core.List.{List, [], ◌∷◌, map}
use trading_challenge.Prelude.Int.{ℤ, pos, negsuc}
use trading_challenge.Prelude.Tests.{leb, ltb, ◌==◌, if◌then◌else◌}

abbrev pub code_points : String → List ℕ
code_points String.[] = []
code_points (String.◌∷◌ first rest) = code first ∷ code_points rest

-- `unicode.ToUpper`, for the characters whose upper case is an ASCII letter: the dotless i and the long s
-- are the only ones that are not ASCII. Any other is left alone, which makes no difference to a search for
-- ASCII letters.
upper_code : ℕ → ℕ
upper_code c =
    if leb b'a' c && leb c b'z'
    then c - 32
    else if c == 305
    then b'I'
    else if c == 383
    then b'S'
    else c

has_prefix : List ℕ → List ℕ → Bool
has_prefix [] s = true
has_prefix (p ∷ ps) [] = false
has_prefix (p ∷ ps) (c ∷ s) = p == c && has_prefix ps s

has_infix : List ℕ → List ℕ → Bool
unfolding has_prefix
has_infix p [] = has_prefix p []
has_infix p (c ∷ s) = has_prefix p (c ∷ s) || has_infix p s

-- `strings.Contains(strings.ToUpper(s), part)`
unfoldable pub contains_upper : String → String → Bool
unfolding upper_code has_infix
contains_upper s part = has_infix (code_points part) (map upper_code (code_points s))

-- `%d`
digit_text : ℕ → String
digit_text d =
    if d == 0
    then "0"
    else if d == 1
    then "1"
    else if d == 2
    then "2"
    else if d == 3
    then "3"
    else if d == 4
    then "4"
    else if d == 5
    then "5"
    else if d == 6
    then "6"
    else if d == 7
    then "7"
    else if d == 8
    then "8"
    else "9"

-- The digits of n, with a bound on their number that is never below it: n + 1 rounds.
number_text : ℕ → ℕ → String
unfolding digit_text
number_text zero n = ""
number_text (suc rounds) n = elim (ltb n 10) [
  | true ↦ digit_text n
  | false ↦ concat (number_text rounds (n / 10)) (digit_text (n % 10))
]

unfoldable pub show_int : ℤ → String
unfolding number_text
show_int (pos n) = number_text (n + 1) n
show_int (negsuc n) = concat "-" (number_text (n + 2) (n + 1))

-- `s + t`, to the right.
infixr 65 ◌<>◌
unfoldable pub ◌<>◌ : String → String → String
s <> t = concat s t

shows : show_int (pos 1_728_043_205) ≡ "1728043205"
unfolding show_int number_text digit_text
shows = refl
