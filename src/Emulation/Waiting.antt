-- ===== src/Emulation/Waiting.antt =====
-- mininet/net.py: `waitConnected`. A switch is a number; `connected n s` is what its `connected`
-- returns after n sleeps, and the pass after the timeout is asked by an argument of its own.
pub mod Late
use faultynet.Shared.{
  ℕ, zero, suc, ◌+◌, Bool, true, false, Option, none, some, List, [], ◌∷◌, get_elem?, length, ◌==◌,
  if◌then◌else◌,
}

-- `remaining.remove( switch )`
unfoldable pub remove_first : ℕ → List ℕ → List ℕ
remove_first x [] = []
remove_first x (y ∷ ys) = let rest = y ∷ remove_first x ys in if y == x then ys else rest

-- `for switch in tuple( remaining )`: over a copy
unfoldable pub sweep : (ℕ → Bool) → List ℕ → List ℕ → List ℕ
unfolding remove_first
sweep connected [] remaining = remaining
sweep connected (s ∷ copy) remaining =
    let gone = sweep connected copy (remove_first s remaining) in
    let stays = sweep connected copy remaining in if connected s then gone else stays

-- `for switch in remaining`, which removes from the list itself: the loop keeps an index. As many
-- rounds as there are switches are enough.
unfoldable pub last_sweep : ℕ → (ℕ → Bool) → ℕ → List ℕ → List ℕ
unfolding remove_first
last_sweep zero connected i remaining = remaining
last_sweep (suc fuel) connected i remaining = elim (get_elem? remaining i) [
  | none ↦ remaining
  | some s ↦
      let gone = last_sweep fuel connected (i + 1) (remove_first s remaining) in
      let stays = last_sweep fuel connected (i + 1) remaining in if connected s then gone else stays
]

abbrev pub is_none : List ℕ → Bool
is_none [] = true
is_none (s ∷ remaining) = false

-- The loop of `waitConnected` after n sleeps; `expired` tells whether the time is up, `late` what the
-- switches answer after that. Fuel for each round.
unfoldable pub wait_connected :
    (ℕ → ℕ → Bool) → (ℕ → Bool) → (ℕ → Bool) → ℕ → ℕ → List ℕ → Option Bool
unfolding sweep last_sweep
wait_connected connected late expired zero n remaining = none
wait_connected connected late expired (suc fuel) n remaining =
    let left = sweep (connected n) remaining remaining in
    let again = wait_connected connected late expired fuel (n + 1) left in
    if is_none left
    then some true
    else if expired n
    then some (is_none (last_sweep (length left) late 0 left))
    else again
