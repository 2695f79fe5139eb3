-- ===== src/Controllers/Patterns/Printing.antt =====
-- An identifier that is put together from names is read as these names.
use Prim.Native.Char.{Char}
use Prim.Native.String.append
use faultynet.Shared.{String, ◌<>◌, ◌≡◌, refl, Bool, false, none, some}
use faultynet.Shared.Text.Split.{AllChars}
use faultynet.Controllers.Patterns.{span, at_end, is_interface_char, implicit_link, explicit_link}

-- The text does not begin with a character that passes the test.
abbrev Stops : (Char → Bool) → String → Type 0
Stops p String.[] = Unit
Stops p (String.◌∷◌ c s) = p c ≡ false

span-append : (p : Char → Bool) (s t : String) → AllChars p s → Stops p t → span p (s <> t) ≡ (s, t)
unfolding span
span-append p String.[] String.[] h stop = refl
span-append p String.[] (String.◌∷◌ c t) h stop = rw append.nil (rw stop)
span-append p (String.◌∷◌ c s) t h stop = rw append.cons (rw (h.0, span-append p s t h.1 stop))

pub span_whole : (p : Char → Bool) (s : String) → AllChars p s → span p s ≡ (s, "")
unfolding span
span_whole p String.[] h = refl
span_whole p (String.◌∷◌ c s) h = rw (h.0, span_whole p s h.1)

abbrev pub arrow : String → String
arrow s = String.◌∷◌ "-" (String.◌∷◌ ">" s)

abbrev pub colon : String → String
colon s = String.◌∷◌ ":" s

at_end-colon : (c : String) → at_end (colon c) ≡ false
unfolding at_end
at_end-colon String.[] = refl
at_end-colon (String.◌∷◌ d c) = refl

module _ (is_word : Char → Bool) (dash : is_word "-" ≡ false) (sep : is_word ":" ≡ false) where
  implicit_link-print :
      (a b : String)
      → AllChars is_word a
      → AllChars is_word b
      → implicit_link is_word (a <> arrow b) ≡ some (a, b)
  unfolding implicit_link
  implicit_link-print a b ha hb =
      rw (span-append is_word a (arrow b) ha dash, span_whole is_word b hb)

  -- For names of word characters `a->b:c` is read as the three names, where the last may also contain
  -- `|` and `-`, and it is not read as `a->b`; `a->b` is read as its two names.
  pub explicit_link-print :
      (a b c : String)
      → AllChars is_word a
      → AllChars is_word b
      → AllChars (is_interface_char is_word) c
      → (explicit_link is_word (a <> arrow (b <> colon c)) ≡ some (a, b, c))
        × (implicit_link is_word (a <> arrow (b <> colon c)) ≡ none)
        × (implicit_link is_word (a <> arrow b) ≡ some (a, b))
  unfolding implicit_link explicit_link
  explicit_link-print a b c ha hb hc =
      let front = span-append is_word a (arrow (b <> colon c)) ha dash in
      let middle = span-append is_word b (colon c) hb sep in
      (
        rw (front, middle, span_whole _ c hc),
        rw (front, middle, at_end-colon c),
        implicit_link-print a b ha hb,
      )
