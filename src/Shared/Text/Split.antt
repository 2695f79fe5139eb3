-- ===== src/Shared/Text/Split.antt =====
-- Python's `str.split` at one character, and the texts of which every character passes a test.
use Prim.Native.Char.{Char, code}
use Prim.Native.String.{String, ◌++◌}
use Prim.Native.String.append
use Prim.Native.Nat.{ℕ}
use mathlib.Core.Path.{◌≡◌, refl}
use mathlib.Core.Bool.{Bool, true, false}
use mathlib.Core.List.{List, [], ◌∷◌}
use faultynet.Shared.Tests.{◌==◌, if◌then◌else◌}

abbrev add_first : Char → List String → List String
add_first c [] = String.◌∷◌ c "" ∷ []
add_first c (w ∷ ws) = String.◌∷◌ c w ∷ ws

-- `s.split(c)`
unfoldable pub split_on : ℕ → String → List String
split_on sep String.[] = "" ∷ []
split_on sep (String.◌∷◌ c s) =
    let rest = split_on sep s in if code c == sep then "" ∷ rest else add_first c rest

-- Every character passes the test.
abbrev pub AllChars : (Char → Bool) → String → Type 0
AllChars p String.[] = Unit
AllChars p (String.◌∷◌ c s) = (p c ≡ true) × AllChars p s

-- No character is the separator.
abbrev pub Without : ℕ → String → Type 0
Without sep String.[] = Unit
Without sep (String.◌∷◌ c s) = ((code c == sep) ≡ false) × Without sep s

pub split_on-append :
    (sep : ℕ) (a : String) (c : Char) (b : String)
    → (code c == sep) ≡ true
    → Without sep a
    → split_on sep (a ++ String.◌∷◌ c b) ≡ a ∷ split_on sep b
unfolding split_on
split_on-append sep String.[] c b h w = rw append.nil (rw h refl)
split_on-append sep (String.◌∷◌ x a) c b h w =
    rw append.cons (rw (w.0, split_on-append sep a c b h w.1) refl)

pub split_on_whole : (sep : ℕ) (a : String) → Without sep a → split_on sep a ≡ a ∷ []
unfolding split_on
split_on_whole sep String.[] w = refl
split_on_whole sep (String.◌∷◌ x a) w = rw (w.0, split_on_whole sep a w.1) refl
