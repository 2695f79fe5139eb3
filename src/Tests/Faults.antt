-- ===== src/Tests/Faults.antt =====
-- The injectors at concrete inputs.
use faultynet.Shared.{
  length, ◌≡◌, refl, true, false, none, some, List, [], ◌∷◌, err, type_error, pos, arith, eq_iff,
  is_in, lookup, show_ℤ,
}
use faultynet.Values.{int, text, to_int, to_float}
use faultynet.Injectors.Script.{Event, inject, perform_all, sleep}
use faultynet.Injectors.Tc.{make_nics_injection_command}
use faultynet.Injectors.Tc.Parity.{is_built, make_parity}
use faultynet.Injectors.Traces.{is_marked, theirs}
use faultynet.Injectors.Link.{do_injection, inject_burst_pattern, inject_by_pattern, degrade}
use faultynet.Injectors.Link.Cleanup.{do_injection_cleans}
use faultynet.Injectors.Link.Leftover.{leftover}
use faultynet.Injectors.Link.Steps.{ladder, degrade-eq-ladder}
use faultynet.Tests.Samples.{thousandths, quiet, start, lossy, endless, alone}

run : List (Event thousandths)
unfolding do_injection inject_by_pattern inject_burst_pattern to_float to_int is_in sleep
    make_nics_injection_command
run = (do_injection "/bin" lossy).events

abbrev other : Event thousandths
other = inject "g@h1->s1" "delay" (some "true") "true"

do_injection_cleans_example :
    is_marked "f@s1->h1"
      (perform_all quiet start (other ∷ (do_injection "/bin" lossy).events)).active
    ≡ false
unfolding to_float is_marked lookup
do_injection_cleans_example =
    do_injection_cleans "/bin" lossy quiet start 3000 (other ∷ [])
      (other ∷ (do_injection "/bin" lossy).events) refl (theirs (alone _))
      (ground (arith, eq_iff "g@h1->s1" "f@s1->h1")) refl

leftover_example :
    (is_marked "f@s1->h1" (perform_all quiet start (do_injection "/bin" endless).events).active
      ≡ true)
    × ((do_injection "/bin" endless).result ≡ err type_error)
unfolding to_float is_in make_nics_injection_command
leftover_example =
    leftover "/bin" endless quiet start 1000 type_error _ refl refl refl refl refl refl

degrade-eq-ladder_example :
    degrade "/bin" lossy 4 (text (show_ℤ (pos 10))) (show_ℤ (pos 40)) (pos 100) 1000
    ≡ ladder "/bin" lossy 1000 4 0 10 40 100
degrade-eq-ladder_example = degrade-eq-ladder "/bin" lossy 1000 4 10 40 100 (omega arith)

make_parity_example :
    is_built (
      make_nics_injection_command {F = thousandths} "/bin" none
        (some "s1-eth1")
        "loss"
        "random"
        (some (int (pos 50) ∷ []))
        none
        "del")
    ≡ true
unfolding make_nics_injection_command is_in
make_parity_example =
    make_parity {F = thousandths} "/bin" none (some "s1-eth1") "loss" "random"
      (some (int (pos 50) ∷ [])) none refl

-- A wait, three bursts of four effects each, and a wait.
three_bursts : length run ≡ 14
unfolding run
three_bursts = refl
