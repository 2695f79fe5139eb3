-- ===== src/Shared/Text.antt =====
-- Python's `str`: containment, concatenation of parts, decimal numerals and `int` of a text.
-- The numerals are those of ASCII: blanks round the number, a sign, digits with single underscores.
pub mod Decimal
pub mod Split
use Prim.Native.Nat.{ℕ, zero, suc, ◌+◌, ◌-◌, ◌*◌, ◌/◌, ◌%◌}
use Prim.Native.Char.{Char, code}
use Prim.Native.String.{String, ◌++◌, count}
use mathlib.Core.Bool.{Bool, true, false, ◌&&◌, ◌||◌}
use mathlib.Core.Option.{Option, none, some}
use mathlib.Core.List.{List, [], ◌∷◌}
use text.Mathlib.Text.{find?}
use text.Mathlib.Text
use faultynet.Shared.Tests.{leb, ltb, ◌==◌, if◌then◌else◌}
use faultynet.Shared.Int.{ℤ, pos, negsuc}

-- `s == t` of two texts.
abbrev pub str_eq : String → String → Bool
str_eq s t = Text.◌==◌ s t

-- `needle in hay`
unfoldable pub is_in : String → String → Bool
is_in needle hay = elim (find? hay needle) [ none ↦ false | some _ ↦ true ]

-- `''.join(parts)`
unfoldable pub cat : List String → String
cat [] = ""
cat (s ∷ []) = s
cat (s ∷ t ∷ rest) = s ++ cat (t ∷ rest)

digit_char : ℕ → Char
digit_char zero = "0"
digit_char (suc zero) = "1"
digit_char (suc (suc zero)) = "2"
digit_char (suc (suc (suc zero))) = "3"
digit_char (suc (suc (suc (suc zero)))) = "4"
digit_char (suc (suc (suc (suc (suc zero))))) = "5"
digit_char (suc (suc (suc (suc (suc (suc zero)))))) = "6"
digit_char (suc (suc (suc (suc (suc (suc (suc zero))))))) = "7"
digit_char (suc (suc (suc (suc (suc (suc (suc (suc zero)))))))) = "8"
digit_char _ = "9"

-- One round for each digit; a number has at most as many digits as its value plus one.
digits_of : ℕ → ℕ → String → String
digits_of zero n rest = rest
digits_of (suc fuel) n rest =
    let done = String.◌∷◌ (digit_char n) rest in
    let more = digits_of fuel (n / 10) (String.◌∷◌ (digit_char (n % 10)) rest) in
    if ltb n 10 then done else more

-- `str(n)`
unfoldable pub show_ℕ : ℕ → String
unfolding digits_of digit_char
show_ℕ n = digits_of (suc n) n ""

unfoldable pub show_ℤ : ℤ → String
unfolding show_ℕ
show_ℤ (pos n) = show_ℕ n
show_ℤ (negsuc n) = String.◌∷◌ "-" (show_ℕ (suc n))

abbrev is_blank : ℕ → Bool
is_blank c = c == 32 || (leb 9 c && leb c 13)

abbrev is_digit : ℕ → Bool
is_digit c = leb b'0' c && leb c b'9'

only_blanks : String → Bool
only_blanks String.[] = true
only_blanks (String.◌∷◌ c s) = is_blank (code c) && only_blanks s

-- The digits after a digit: `none` where the text is no number.
more_digits : ℕ → Bool → String → Option ℕ
more_digits n after_bar String.[] = if after_bar then none else some n
more_digits n after_bar (String.◌∷◌ c s) =
    let next = more_digits (n * 10 + (code c - b'0')) false s in
    let bar = more_digits n true s in
    if is_digit (code c)
    then next
    else if after_bar
    then none
    else if code c == b'_'
    then bar
    else if is_blank (code c) && only_blanks s
    then some n
    else none

natural_text : String → Option ℕ
natural_text String.[] = none
natural_text (String.◌∷◌ c s) =
    if is_digit (code c) then more_digits (code c - b'0') false s else none

negate : Option ℕ → Option ℤ
negate none = none
negate (some zero) = some (pos zero)
negate (some (suc n)) = some (negsuc n)

positive : Option ℕ → Option ℤ
positive none = none
positive (some n) = some (pos n)

-- `int(s)`: `none` is a ValueError.
unfoldable pub int_of_text : String → Option ℤ
unfolding more_digits natural_text only_blanks negate positive
int_of_text String.[] = none
int_of_text (String.◌∷◌ c s) =
    let rest = int_of_text s in
    if is_blank (code c)
    then rest
    else if code c == b'-'
    then negate (natural_text s)
    else if code c == b'+'
    then positive (natural_text s)
    else positive (natural_text (String.◌∷◌ c s))

-- Does the text begin with the pattern.
begins_with : String → String → Bool
begins_with String.[] s = true
begins_with (String.◌∷◌ p pattern) String.[] = false
begins_with (String.◌∷◌ p pattern) (String.◌∷◌ c s) = code p == code c && begins_with pattern s

replace_from : ℕ → String → String → String → String
replace_from skip old new String.[] = ""
replace_from (suc skip) old new (String.◌∷◌ c s) = replace_from skip old new s
replace_from zero old new (String.◌∷◌ c s) =
    let found = new ++ replace_from (count old - 1) old new s in
    let kept = String.◌∷◌ c (replace_from zero old new s) in
    if begins_with old (String.◌∷◌ c s) then found else kept

-- `s.replace(old, new)` at a pattern that is not empty.
unfoldable pub replace : String → String → String → String
unfolding begins_with replace_from
replace s old new = replace_from zero old new s

-- `s.lstrip()`
unfoldable pub lstrip : String → String
lstrip String.[] = ""
lstrip (String.◌∷◌ c s) = let rest = lstrip s in if is_blank (code c) then rest else String.◌∷◌ c s

-- A character in front of what is left of the text behind it.
put_front : Char → String → String
put_front c String.[] = if is_blank (code c) then "" else String.◌∷◌ c ""
put_front c (String.◌∷◌ d s) = String.◌∷◌ c (String.◌∷◌ d s)

-- `s.rstrip()`
unfoldable pub rstrip : String → String
unfolding put_front
rstrip String.[] = ""
rstrip (String.◌∷◌ c s) = put_front c (rstrip s)

-- `s.strip()`
unfoldable pub strip : String → String
unfolding lstrip rstrip
strip s = rstrip (lstrip s)
