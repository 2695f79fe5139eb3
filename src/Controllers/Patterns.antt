-- ===== src/Controllers/Patterns.antt =====
-- The regular expressions of `BaseFaultController.py` and `ConfigFileFaultController.py`. `\w` is
-- the interpreter's: `is_word` says which characters it matches. No expression here can match in two
-- ways, since `-`, `:` and `|` are no word characters, so the greedy walk is the whole search.
pub mod Printing
use Prim.Native.Char.{Char, code}
use mathlib.Core.Option
use faultynet.Shared.{String, Bool, true, false, ◌||◌, ◌==◌, Option, none, some, if◌then◌else◌}

-- The longest prefix of characters that pass the test, and the rest.
unfoldable pub span : (Char → Bool) → String → String × String
span p String.[] = ("", "")
span p (String.◌∷◌ c s) =
    let (word, rest) = span p s in if p c then (String.◌∷◌ c word, rest) else ("", String.◌∷◌ c s)

-- `$`: the end, or before a line feed at the end.
unfoldable pub at_end : String → Bool
at_end String.[] = true
at_end (String.◌∷◌ c String.[]) = code c == 10
at_end (String.◌∷◌ c (String.◌∷◌ d s)) = false

-- The text behind a `->`.
unfoldable pub after_arrow : String → Option String
after_arrow (String.◌∷◌ c (String.◌∷◌ d s)) =
    if code c == b'-' then (if code d == b'>' then some s else none) else none
after_arrow _ = none

-- The text behind a colon.
unfoldable pub after_colon : String → Option String
after_colon (String.◌∷◌ c s) = if code c == b':' then some s else none
after_colon String.[] = none

-- What remains behind a prefix.
unfoldable pub after_prefix : String → String → Option String
after_prefix String.[] s = some s
after_prefix (String.◌∷◌ p ps) String.[] = none
after_prefix (String.◌∷◌ p ps) (String.◌∷◌ c s) =
    let rest = after_prefix ps s in if code p == code c then rest else none

abbrev pub whole : String × String → Option String
whole (word, rest) = if at_end rest then some word else none

module _ (is_word : Char → Bool) where
  -- `[\w|-]`
  abbrev pub is_interface_char : Char → Bool
  is_interface_char c = is_word c || code c == b'|' || code c == b'-'

  abbrev implicit_behind : String → Option String → Option (String × String)
  implicit_behind a none = none
  implicit_behind a (some s) = Option.map (λ b. (a, b)) (whole (span is_word s))

  -- `^(\w*)->(\w*)$`
  unfoldable pub implicit_link : String → Option (String × String)
  unfolding span at_end after_arrow
  implicit_link s = let (a, rest) = span is_word s in implicit_behind a (after_arrow rest)

  module _ (class : Char → Bool) where
    abbrev interface_behind : String → String → Option String → Option (String × String × String)
    interface_behind a b none = none
    interface_behind a b (some s) = Option.map (λ c. (a, b, c)) (whole (span class s))

    abbrev explicit_behind : String → Option String → Option (String × String × String)
    explicit_behind a none = none
    explicit_behind a (some s) =
        let (b, rest) = span is_word s in interface_behind a b (after_colon rest)

    -- `^(\w*)->(\w*):(C*)$` for a class `C` of characters
    unfoldable pub explicit_link_of : String → Option (String × String × String)
    unfolding span at_end after_arrow after_colon
    explicit_link_of s = let (a, rest) = span is_word s in explicit_behind a (after_arrow rest)

  -- `^(\w*)->(\w*):([\w|-]*)$`, by which an identifier is read.
  unfoldable pub explicit_link : String → Option (String × String × String)
  unfolding explicit_link_of
  explicit_link = explicit_link_of is_interface_char

  -- `BaseFaultControllerStarter._is_string_in_arrow_pattern`: the interface's name is `\w*` here.
  unfoldable pub is_string_in_arrow_pattern : String → Bool
  unfolding implicit_link explicit_link_of
  is_string_in_arrow_pattern s = elim (implicit_link s) [
    | some _ ↦ true
    | none ↦ elim (explicit_link_of is_word s) [ some _ ↦ true | none ↦ false ]
  ]

  -- `^PREFIX(\w*)$`
  unfoldable pub fault_of_kind : String → String → Option String
  unfolding after_prefix span at_end
  fault_of_kind prefix s = elim (after_prefix prefix s) [
    | none ↦ none
    | some rest ↦ whole (span is_word rest)
  ]
