-- ===== src/Shells/Output.antt =====
-- The output that `waitOutput` of mininet/node.py returns.
use faultynet.Shared.{
  ℕ, zero, suc, ◌+◌, ◌≤◌, ◌==◌, ◌≡◌, refl, sym, ap, ◌∙◌, Bool, ◌&&◌, List, Option, some, [], ◌∷◌,
  ◌++◌, any, length, length-append, concat, All, take_whole, drop, append_assoc, arith, true, false,
  if◌then◌else◌, ◌>>?◌,
}
use faultynet.Shells.{Shell, last_is, init, take_sentinel, take_pid, monitor, wait_output}
use faultynet.Shells.Pids.{Codes}
use faultynet.Shells.Lines.{before}

-- Output without the sentinel and the mark of a process, at most what one call reads.
abbrev pub IsPlain : Codes → Type 0
IsPlain s = (length s ≤ 1023) × All (λ c. ((c == 127) ≡ false) × ((c == 1) ≡ false)) s

no_mark :
    (s : Codes)
    → All (λ c. ((c == 127) ≡ false) × ((c == 1) ≡ false)) s
    → any (λ c. c == 1) s ≡ false
no_mark [] h = refl
no_mark (c ∷ s) h = rw h.0.1 (no_mark s h.1)

no_mark_end :
    (s : Codes)
    → All (λ c. ((c == 127) ≡ false) × ((c == 1) ≡ false)) s
    → any (λ c. c == 1) (s ++ (127 ∷ [])) ≡ false
no_mark_end [] h = refl
no_mark_end (c ∷ s) h = rw h.0.1 (no_mark_end s h.1)

no_sentinel :
    (s : Codes)
    → All (λ c. ((c == 127) ≡ false) × ((c == 1) ≡ false)) s
    → (any (λ c. c == 127) s ≡ false) × (last_is 127 s ≡ false)
no_sentinel [] h = (refl, refl)
no_sentinel (c ∷ []) h = (rw h.0.0 refl, h.0.0)
no_sentinel (c ∷ d ∷ s) h = let rest = no_sentinel (d ∷ s) h.1 in (rw h.0.0 rest.0, rest.1)

sentinel : (s : Codes) → (last_is 127 (s ++ (127 ∷ [])) ≡ true) × (init (s ++ (127 ∷ [])) ≡ s)
sentinel [] = (refl, refl)
sentinel (c ∷ []) = (refl, refl)
sentinel (c ∷ d ∷ s) = let rest = sentinel (d ∷ s) in (rest.0, ap (λ l. c ∷ l) rest.1)

-- What a round does after the reading.
abbrev searched : Bool → Codes → Shell → Option (Codes × Shell)
searched find_pid got s =
    (if find_pid && any (λ c. c == 1) got then take_pid got s else some (got, s)) >>? λ (rest, s2).
    some (take_sentinel rest s2)

unsearched :
    (find_pid : Bool) (got : Codes) (s : Shell)
    → any (λ c. c == 1) got ≡ false
    → searched find_pid got s ≡ some (take_sentinel got s)
unsearched true got s h = rw h refl
unsearched false got s h = refl

-- A round that finds no mark.
monitor_round :
    (find_pid : Bool) (got : Codes) (s : Shell)
    → length got ≤ 1024
    → any (λ c. c == 1) got ≡ false
    → monitor true find_pid (before [] got s) ≡ some (take_sentinel got (record s { readbuf = [] }))
unfolding monitor
monitor_round find_pid got s h unmarked =
    let whole = take_whole 1024 got h in
    ap (λ g. searched find_pid g (record s { readbuf = drop 1024 got })) whole.0
    ∙ ap (λ r. searched find_pid got (record s { readbuf = r })) whole.1
    ∙ unsearched find_pid got (record s { readbuf = [] }) unmarked

monitor_plain :
    (find_pid : Bool) (got : Codes) (s : Shell)
    → IsPlain got
    → monitor true find_pid (before [] got s) ≡ some (got, record s { readbuf = [] })
unfolding take_sentinel
monitor_plain find_pid got s h =
    monitor_round find_pid got s (omega (arith, h.0)) (no_mark got h.1)
    ∙ (let e = no_sentinel got h.1 in rw (e.1, e.0) refl)

monitor_last :
    (find_pid : Bool) (got : Codes) (s : Shell)
    → IsPlain got
    → monitor true find_pid (before [] (got ++ (127 ∷ [])) s)
      ≡ some (got, record s { readbuf = []; waiting = false })
unfolding take_sentinel
monitor_last find_pid got s h =
    monitor_round find_pid (got ++ (127 ∷ [])) s (omega (arith, h.0, length-append got (127 ∷ [])))
      (no_mark_end got h.1)
    ∙ (let e = sentinel got in
        rw e.0 (ap (λ l. some (l, record s { readbuf = []; waiting = false })) e.1))

-- The state before the output comes in these parts.
abbrev pub awaiting : List Codes → Shell → Shell
awaiting parts s = record s { readbuf = []; waiting = true; incoming = parts }

-- Output that comes in parts of at most 1023 characters, none with a sentinel or the mark of a
-- process and the last one followed by the sentinel, is returned whole by `waitOutput`, whether it
-- looks for the number of a process or not. The buffer is empty afterwards, the shell is not waiting
-- for the command, and what comes later is still to come. Two rounds more than there are parts before
-- the last are enough.
pub wait_output_returns :
    (fuel : ℕ) (find_pid : Bool) (output : Codes) (parts : List Codes) (end : Codes)
    (rest : List Codes) (s : Shell)
    → length parts + 2 ≤ fuel
    → All IsPlain parts
    → IsPlain end
    → wait_output fuel find_pid output (awaiting (parts ++ ((end ++ (127 ∷ [])) ∷ rest)) s)
      ≡ some (
        output ++ (concat parts ++ end),
        record s { readbuf = []; waiting = false; incoming = rest },
      )
unfolding wait_output
wait_output_returns zero find_pid output parts end rest s h ps e = absurd (omega (arith, h))
wait_output_returns (suc zero) find_pid output parts end rest s h ps e = absurd (omega (arith, h))
wait_output_returns (suc (suc fuel)) find_pid output [] end rest s h ps e =
    ap (λ o. o >>? λ (got, s1). wait_output (suc fuel) find_pid (output ++ got) s1)
      (monitor_last find_pid end (record s { waiting = true; incoming = rest }) e)
wait_output_returns (suc (suc fuel)) find_pid output (part ∷ parts) end rest s h ps e =
    ap (λ o. o >>? λ (got, s1). wait_output (suc fuel) find_pid (output ++ got) s1)
      (monitor_plain find_pid part
        (record s { waiting = true; incoming = parts ++ ((end ++ (127 ∷ [])) ∷ rest) }) ps.0)
    ∙ wait_output_returns (suc fuel) find_pid (output ++ part) parts end rest s (omega (arith, h))
        ps.1 e
    ∙ ap (λ l. some (l, record s { readbuf = []; waiting = false; incoming = rest }))
        (append_assoc output part (concat parts ++ end)
          ∙ ap (λ l. output ++ l) (sym (append_assoc part (concat parts) end)))
