-- ===== src/Emulation/Pings.antt =====
-- mininet/net.py: `_parsePing` and `ping`. What the command `ping` prints is a parameter; a host is a
-- number.
pub mod Losses
use Prim.Native.Char.{code}
use Prim.Native.String.{String}
use faultynet.Shared.{
  ℕ, ◌+◌, ◌-◌, ◌*◌, ◌==◌, ltb, Bool, true, false, ◌||◌, Option, none, some, List, [], ◌∷◌, Result,
  ok, err, system_exit, ◌>>=◌, ◌>>?◌, if◌then◌else◌,
}
use faultynet.Shells.Pids.{Codes, digits, number}

abbrev pub codes : String → Codes
codes String.[] = []
codes (String.◌∷◌ c s) = code c ∷ codes s

-- What follows the pattern at the front.
abbrev pub after : Codes → Codes → Option Codes
after [] s = some s
after (p ∷ pattern) [] = none
after (p ∷ pattern) (c ∷ s) = if c == p then after pattern s else none

abbrev found_at : Codes → Codes → Bool
found_at pattern s = elim (after pattern s) [ none ↦ false | some _ ↦ true ]

-- `pattern in s`, for a pattern that is not empty
unfoldable pub occurs : Codes → Codes → Bool
occurs pattern [] = false
occurs pattern (c ∷ s) = found_at pattern (c ∷ s) || occurs pattern s

-- `int` of digits
abbrev pub value : ℕ → Codes → ℕ
value n [] = n
value n (d ∷ ds) = value (n * 10 + (d - 48)) ds

-- `( packets)? received`
abbrev received_at : Codes → Option Codes
received_at s = elim (after (codes " packets") s >>? after (codes " received")) [
  | some rest ↦ some rest
  | none ↦ after (codes " received") s
]

-- `(\d+) packets transmitted, (\d+)( packets)? received` at the front
abbrev pub summary_at : Codes → Option (ℕ × ℕ)
summary_at s = number (digits s) >>? λ (sent, s1).
    after (codes " packets transmitted, ") s1 >>? λ s2. number (digits s2) >>? λ (received, s3).
    received_at s3 >>? λ _. some (value 0 sent, value 0 received)

-- `re.search`
unfoldable pub summary : Codes → Option (ℕ × ℕ)
summary [] = none
summary (c ∷ s) =
    let rest = summary s in elim (summary_at (c ∷ s)) [ some found ↦ some found | none ↦ rest ]

abbrev or_lost : Option (ℕ × ℕ) → ℕ × ℕ
or_lost none = (1, 0)
or_lost (some found) = found

-- `_parsePing`: packets sent, received
unfoldable pub parse_ping : Codes → ℕ × ℕ
unfolding occurs summary
parse_ping output =
    if occurs (codes "connect: Network is unreachable") output
    then (1, 0)
    else or_lost (summary output)

-- The totals after one reply; more packets received than sent end the program.
abbrev pub add_reply : ℕ × ℕ → ℕ × ℕ → Result (ℕ × ℕ)
add_reply (sent, received) (packets, lost) =
    if ltb sent received then err system_exit else ok (packets + sent, lost + (sent - received))

module _ (reply : ℕ → ℕ → Codes) (has_intfs : ℕ → Bool) where
  -- Sent and received, of a node and a destination
  abbrev pub result_of : ℕ → ℕ → ℕ × ℕ
  result_of node dest = if has_intfs dest then parse_ping (reply node dest) else (0, 0)

  unfoldable pub ping_from : ℕ → List ℕ → ℕ × ℕ → Result (ℕ × ℕ)
  unfolding parse_ping
  ping_from node [] totals = ok totals
  ping_from node (dest ∷ dests) totals =
      let asked = add_reply (result_of node dest) totals >>= ping_from node dests in
      let skipped = ping_from node dests totals in if node == dest then skipped else asked

  unfoldable pub ping_each : List ℕ → List ℕ → ℕ × ℕ → Result (ℕ × ℕ)
  unfolding ping_from
  ping_each [] hosts totals = ok totals
  ping_each (node ∷ nodes) hosts totals = ping_from node hosts totals >>= ping_each nodes hosts

  -- `ping` between all hosts: the packets, and how many of them are lost
  unfoldable pub ping : List ℕ → Result (ℕ × ℕ)
  unfolding ping_each
  ping hosts = ping_each hosts hosts (0, 0)

-- `ping` with a destination given, for what is printed at each host
unfoldable pub ping_manual : (ℕ → Codes) → List ℕ → ℕ × ℕ → Result (ℕ × ℕ)
unfolding parse_ping
ping_manual reply [] totals = ok totals
ping_manual reply (node ∷ hosts) totals =
    add_reply (parse_ping (reply node)) totals >>= ping_manual reply hosts
