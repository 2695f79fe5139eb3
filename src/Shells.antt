-- ===== src/Shells.antt =====
-- mininet/node.py: the output of a node's shell and the commands that are sent to it. A text that
-- comes from the shell is the list of its character codes.
pub mod Pids
pub mod Reading
pub mod Fuel
pub mod Lines
pub mod Output
pub mod Stuck
pub mod Commands
use faultynet.Shared.{
  ℕ, zero, suc, ◌+◌, ◌==◌, ltb, Bool, true, false, ◌&&◌, Option, none, some, List, [], ◌∷◌, ◌++◌,
  any, length, take, drop, concat, ◌>>?◌, if◌then◌else◌,
}
use faultynet.Shells.Pids.{Codes, without_jobs, first_marker, without_markers}

-- What a node keeps of its shell. `incoming` holds the data, decoded, of the calls of `os.read` to
-- come; where there is none, a call blocks. `last_pid` holds the digits of the number.
pub record Shell : Type 0 where
  pub readbuf : Codes
  pub waiting : Bool
  pub last_pid : Option Codes
  pub incoming : List Codes

abbrev pub is_empty {ℓ} : {A : Type ℓ} → List A → Bool
is_empty [] = true
is_empty (x ∷ xs) = false

-- `self.readbuf += self.decoder.decode( data )`
abbrev pub os_read : List Codes → Shell → Option Shell
os_read [] s = none
os_read (got ∷ incoming) s = some (record s { readbuf = s.readbuf ++ got; incoming = incoming })

-- The slices of the buffer
abbrev pub split_at : ℕ → Shell → Codes × Shell
split_at size s = (take size s.readbuf, record s { readbuf = drop size s.readbuf })

-- `read`: none where it blocks.
unfoldable pub read : ℕ → Shell → Option (Codes × Shell)
read size s =
    let filled = os_read s.incoming s >>? λ s1. some (split_at size s1) in
    if ltb (length s.readbuf) size then filled else some (split_at size s)

-- The line before the first line feed, and what follows it.
unfoldable pub cut_line : Codes → Option (Codes × Codes)
cut_line [] = none
cut_line (c ∷ s) =
    let rest = cut_line s >>? λ (line, after). some (c ∷ line, after) in
    if c == 10 then some ([], s) else rest

abbrev pub take_line : Codes → Shell → Option Codes × Shell
take_line buffer s = elim (cut_line buffer) [
  | none ↦ (none, record s { readbuf = buffer })
  | some (line, after) ↦ (some line, record s { readbuf = after })
]

-- `readline`: the old buffer is loaded before `read` changes it.
unfoldable pub readline : Shell → Option (Option Codes × Shell)
unfolding read cut_line
readline s = read 1024 s >>? λ (got, s1). some (take_line (s.readbuf ++ got) s1)

-- `waitReadable`, for an answer of the poll; None where the buffer holds something
unfoldable pub wait_readable : Bool → Shell → Bool
wait_readable poll s = if is_empty s.readbuf then poll else false

-- Is there a match.
abbrev pub found_or {ℓ} : {A : Type ℓ} → Option Codes → A → A → A
found_or (some pid) found more = found
found_or none found more = more

-- `while not re.findall( marker, data )`: fuel for each call of `read`
unfoldable pub await_marker : ℕ → Codes → Shell → Option (Codes × Shell)
await_marker zero got s = none
await_marker (suc fuel) got s =
    let more = read 1024 s >>? λ (next, s1). await_marker fuel (got ++ next) s1 in
    found_or (first_marker got) (some (got, s)) more

-- A call of `read` takes from `incoming`, or 1024 characters from the buffer.
abbrev pub reads_left : Shell → ℕ
reads_left s = suc (length s.incoming + length s.readbuf + length (concat s.incoming))

-- The search for the number of the process
unfoldable pub take_pid : Codes → Shell → Option (Codes × Shell)
unfolding await_marker
take_pid got s = await_marker (reads_left s) (without_jobs got) s >>? λ (got, s1).
    some (without_markers got, record s1 { last_pid = first_marker got })

-- The last character, and the list without it
abbrev pub last_is : ℕ → Codes → Bool
last_is c [] = false
last_is c (x ∷ []) = x == c
last_is c (x ∷ y ∷ s) = last_is c (y ∷ s)

abbrev pub init : Codes → Codes
init [] = []
init (x ∷ []) = []
init (x ∷ y ∷ s) = x ∷ init (y ∷ s)

-- `data.replace( c, '' )`
abbrev pub erase_char : ℕ → Codes → Codes
erase_char c [] = []
erase_char c (x ∷ s) = let rest = erase_char c s in if x == c then rest else x ∷ rest

-- The search for the sentinel
unfoldable pub take_sentinel : Codes → Shell → Codes × Shell
take_sentinel got s =
    let inside = any (λ c. c == 127) got in
    if last_is 127 got
    then (init got, record s { waiting = false })
    else if inside
    then (erase_char 127 got, record s { waiting = false })
    else (got, s)

-- `monitor`
unfoldable pub monitor : Bool → Bool → Shell → Option (Codes × Shell)
unfolding wait_readable read take_pid take_sentinel
monitor poll find_pid s =
    let ready = read 1024 s >>? λ (got, s1).
    (if find_pid && any (λ c. c == 1) got then take_pid got s1 else some (got, s1))
    >>? λ (rest, s2). some (take_sentinel rest s2) in
    if wait_readable poll s then ready else some ([], s)

-- `waitOutput`: fuel for each round; the poll has no timeout.
unfoldable pub wait_output : ℕ → Bool → Codes → Shell → Option (Codes × Shell)
unfolding monitor
wait_output zero find_pid output s = none
wait_output (suc fuel) find_pid output s =
    let next =
      monitor true find_pid s >>? λ (got, s1). wait_output fuel find_pid (output ++ got) s1 in
    if s.waiting then next else some (output, s)
