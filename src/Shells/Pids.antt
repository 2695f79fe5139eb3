-- ===== src/Shells/Pids.antt =====
-- mininet/node.py: the regular expressions by which `monitor` finds the number of a process.
-- `\d` is a digit of ASCII.
use faultynet.Shared.{
  ℕ, zero, suc, ◌==◌, leb, Bool, ◌&&◌, Option, none, some, List, [], ◌∷◌, length, ◌>>?◌,
  if◌then◌else◌,
}

abbrev pub Codes : Type 0
Codes = List ℕ

abbrev pub digit : ℕ → Bool
digit c = leb 48 c && leb c 57

-- The digits at the front, and the rest.
abbrev pub digits : Codes → Codes × Codes
digits [] = ([], [])
digits (c ∷ s) = let rest = digits s in if digit c then (c ∷ rest.0, rest.1) else ([], c ∷ s)

-- `\d+`
abbrev pub number : Codes × Codes → Option (Codes × Codes)
number ([], s) = none
number (c ∷ ds, s) = some (c ∷ ds, s)

abbrev char : ℕ → Codes → Option Codes
char x [] = none
char x (c ∷ s) = if c == x then some s else none

abbrev line_end : Codes → Option Codes
line_end s = char 13 s >>? char 10

-- `chr( 1 ) + r'\d+\r\n'` at the front: the digits, and what follows the match.
unfoldable pub marker : Codes → Option (Codes × Codes)
marker s = char 1 s >>? λ s1. number (digits s1) >>? λ (ds, s2). line_end s2 >>? λ s3. some (ds, s3)

-- `r'\[\d+\] \d+\r\n'`
unfoldable pub job : Codes → Option (Codes × Codes)
job s = char 91 s >>? λ s1. number (digits s1) >>? λ (_, s2). char 93 s2 >>? char 32 >>? λ s3.
    number (digits s3) >>? λ (ds, s4). line_end s4 >>? λ s5. some (ds, s5)

-- The first match anywhere.
abbrev first_match : (Codes → Option (Codes × Codes)) → Codes → Option Codes
first_match match_at [] = none
first_match match_at (c ∷ s) =
    let rest = first_match match_at s in
    elim (match_at (c ∷ s)) [ some (ds, after) ↦ some ds | none ↦ rest ]

-- `re.sub( pattern, '', s )`; a round for each character is enough.
erase_matches : (Codes → Option (Codes × Codes)) → ℕ → Codes → Codes
erase_matches match_at zero s = s
erase_matches match_at (suc fuel) [] = []
erase_matches match_at (suc fuel) (c ∷ s) =
    let kept = c ∷ erase_matches match_at fuel s in
    elim (match_at (c ∷ s)) [ some (ds, after) ↦ erase_matches match_at fuel after | none ↦ kept ]

unfoldable pub first_marker : Codes → Option Codes
unfolding marker
first_marker s = first_match marker s

unfoldable pub without_markers : Codes → Codes
unfolding marker erase_matches
without_markers s = erase_matches marker (length s) s

unfoldable pub without_jobs : Codes → Codes
unfolding job erase_matches
without_jobs s = erase_matches job (length s) s
