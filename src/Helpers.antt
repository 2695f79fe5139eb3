-- ===== src/Helpers.antt =====
-- mininet/util.py: the repeated attempts of `retry`, and the arguments of the command line's options
-- (`splitArgs`).
pub mod Attempts
pub mod Options
use Prim.Native.Char.{Char, code}
use faultynet.Shared.{
  ℕ, zero, suc, String, Bool, true, false, not, none, some, List, [], ◌∷◌, ◌==◌, leb, Option,
  int_of_text, insert, Dict, map, if◌then◌else◌,
}
use faultynet.Shared.Text.Split.{split_on}
use faultynet.Values.{Floats, Value, int, float, text}

-- The `while` loop, for an attempt of which the n-th call returns `fn n`; `left` is `retries - tries`.
-- It returns `tries`.
unfoldable pub attempts : (ℕ → Bool) → ℕ → ℕ → ℕ
attempts fn zero tries = tries
attempts fn (suc left) tries =
    let again = attempts fn left (suc tries) in if fn tries then tries else again

pub record Retried : Type 0 where
  pub calls : ℕ
  pub gave_up : Bool

-- `retry`: the number of calls, and whether the program exits.
unfoldable pub retry : ℕ → (ℕ → Bool) → Retried
unfolding attempts
retry retries fn =
    let tries = attempts fn retries 0 in record { calls = suc tries; gave_up = leb retries tries }

-- `filter(test, xs)` of the two comprehensions
unfoldable pub keep {ℓ} : {A : Type ℓ} → (A → Bool) → List A → List A
keep p [] = []
keep p (x ∷ xs) = let rest = keep p xs in if p x then x ∷ rest else rest

-- Does the character stand in the text.
unfoldable pub has_char : ℕ → String → Bool
has_char c String.[] = false
has_char c (String.◌∷◌ x s) = if code x == c then true else has_char c s

abbrev first_with : Char → String × String → String × String
first_with c (k, v) = (String.◌∷◌ c k, v)

-- `key, val = s.split(c, 1)`, for a text in which the character stands
unfoldable pub split_once : ℕ → String → String × String
split_once sep String.[] = ("", "")
split_once sep (String.◌∷◌ c s) =
    let rest = first_with c (split_once sep s) in if code c == sep then ("", s) else rest

pub record Call (F : Floats) : Type 0 where
  pub fn : String
  pub args : List (Value F)
  pub kwargs : Dict (Value F)

module _ {F : Floats} where
  abbrev float_or_text : String → Option F.Float → Value F
  float_or_text s none = text s
  float_or_text s (some x) = float x

  abbrev pub make_numeric : String → Value F
  make_numeric s = elim (int_of_text s) [ some n ↦ int n | none ↦ float_or_text s (F.of_text s) ]

  unfoldable pub keywords : Dict (Value F) → List String → Dict (Value F)
  unfolding split_once
  keywords kwargs [] = kwargs
  keywords kwargs (s ∷ params) =
      keywords (insert (split_once 61 s).0 (make_numeric (split_once 61 s).1) kwargs) params

  abbrev pub call_of : List String → Call F
  call_of [] = record { fn = ""; args = []; kwargs = [] }
  call_of (fn ∷ params) = record {
    fn = fn;
    args = map make_numeric (keep (λ s. not (has_char 61 s)) params);
    kwargs = keywords [] (keep (has_char 61) params);
  }

  -- `splitArgs`
  unfoldable pub split_args : String → Call F
  unfolding split_on keep has_char keywords
  split_args argstr = call_of (split_on 44 argstr)
