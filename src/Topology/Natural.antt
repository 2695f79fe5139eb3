-- ===== src/Topology/Natural.antt =====
-- mininet/util.py: `natural` and `naturalSeq`, the keys by which names are sorted. A digit is an ASCII one.
use Prim.Native.Char.{Char, code}
use faultynet.Shared.{
  ℕ, ltb, leb, String, Bool, true, false, ◌&&◌, Option, some, List, [], ◌∷◌, map, ◌≡◌, refl,
  if◌then◌else◌, pos, ℤ, int_of_text, arith,
}
use faultynet.Shared.Sorting.{after, after_asym, lex, lex_asym}

-- What `re.split(r'(\d+)', text)` returns, in order: the texts between the runs of digits, and these.
pub data Segment : Type 0 where
  letters : String → Segment
  digits : String → Segment

abbrev add_letter : Char → List Segment → List Segment
add_letter c (letters w ∷ segs) = letters (String.◌∷◌ c w) ∷ segs
add_letter c segs = letters (String.◌∷◌ c "") ∷ segs

abbrev add_digit : Char → List Segment → List Segment
add_digit c (letters String.[] ∷ digits ds ∷ segs) = letters "" ∷ digits (String.◌∷◌ c ds) ∷ segs
add_digit c segs = letters "" ∷ digits (String.◌∷◌ c "") ∷ segs

unfoldable pub split_digits : String → List Segment
split_digits String.[] = letters "" ∷ []
split_digits (String.◌∷◌ c s) =
    let rest = split_digits s in
    if leb b'0' (code c) && leb (code c) b'9' then add_digit c rest else add_letter c rest

pub data Chunk : Type 0 where
  number : ℕ → Chunk
  word : String → Chunk

abbrev numeral : String → Option ℤ → Chunk
numeral s (some (pos n)) = number n
numeral s _ = word s

-- `int( s ) if s.isdigit() else s`
abbrev pub num : Segment → Chunk
num (letters s) = word s
num (digits s) = numeral s (int_of_text s)

unfoldable pub natural : String → List Chunk
unfolding split_digits int_of_text
natural s = map num (split_digits s)

unfoldable pub natural_seq : List String → List (List Chunk)
unfolding natural
natural_seq t = map natural t

-- `x < y` of two chunks at one place of two keys, which are of one kind.
unfoldable pub chunk_less : Chunk → Chunk → Bool
unfolding after
chunk_less (number m) (number n) = ltb m n
chunk_less (word s) (word t) = after t s
chunk_less _ _ = false

unfoldable pub key_less : List Chunk → List Chunk → Bool
unfolding lex chunk_less
key_less = lex chunk_less

unfoldable pub seq_less : List (List Chunk) → List (List Chunk) → Bool
unfolding lex key_less
seq_less = lex key_less

chunk_less_asym : (x y : Chunk) → chunk_less x y ≡ true → chunk_less y x ≡ false
unfolding chunk_less
chunk_less_asym (number m) (number n) h = ground (arith, h)
chunk_less_asym (number m) (word t) h = refl
chunk_less_asym (word s) (number n) h = refl
chunk_less_asym (word s) (word t) h = after_asym t s h

pub key_less_asym : (x y : List Chunk) → key_less x y ≡ true → key_less y x ≡ false
unfolding key_less
key_less_asym = lex_asym chunk_less chunk_less_asym

pub seq_less_asym : (x y : List (List Chunk)) → seq_less x y ≡ true → seq_less y x ≡ false
unfolding seq_less
seq_less_asym = lex_asym key_less key_less_asym
