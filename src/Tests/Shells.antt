-- ===== src/Tests/Shells.antt =====
-- The tables of a node's interfaces and the output of its shell at concrete states.
use faultynet.Shared.{
  ◌≢◌, ℕ, ◌≡◌, refl, true, false, none, some, [], ◌∷◌, ok, arith, cat, at, lookup,
}
use faultynet.Interfaces.{Tables, End, make_link, intf_name, new_port}
use faultynet.Interfaces.Links.{make_link-Represents}
use faultynet.Interfaces.Spec.{Wiring, unwired, attach, Represents, add, perform, Step}
use faultynet.Interfaces.Refined.{tables_refine_wiring}
use faultynet.Shells.{Shell, read, readline, wait_output}
use faultynet.Shells.Pids.{Codes, first_marker, without_markers}
use faultynet.Shells.Lines.{before, readline_repeats}
use faultynet.Shells.Stuck.{wait_output_spins}
use faultynet.Shells.Commands.{running, run_cmd, run_cmd_returns}

abbrev no_tables : Tables
no_tables = record { intfs = []; ports = []; name_to_intf = []; name_of = λ _. "" }

no_tables-Represents : Represents no_tables unwired
unfolding at lookup
no_tables-Represents = record {
  wired = λ i p n e. absurd cc;
  by_port = λ p i e. absurd cc;
  by_name = λ n i e. absurd cc;
  by_intf = λ i p e. absurd cc;
}

-- The first interface of a node, with a port of the node's choice.
tables_refine_wiring_example :
    (t1 : Tables) × (s1 : Wiring) × (perform 0 (add 7 "h1-eth0" none) no_tables ≡ ok t1)
    × Step unwired (add 7 "h1-eth0" none) s1
    × Represents t1 s1
tables_refine_wiring_example =
    tables_refine_wiring 0 (add 7 "h1-eth0" none) no_tables unwired no_tables-Represents
      (refl, λ i p n e. absurd cc)

abbrev host_end : End
host_end = record { node = 1; node_name = "h1"; port_base = 0 }

abbrev switch_end : End
switch_end = record { node = 2; node_name = "s1"; port_base = 1 }

-- The first link of a host and a switch.
make_link-Represents_example :
    Represents
      (make_link host_end switch_end none none none none 7 8 (λ _. no_tables) 1)
      (attach 7 0 (intf_name "h1" 0) unwired)
    × Represents
        (make_link host_end switch_end none none none none 7 8 (λ _. no_tables) 2)
        (attach 8 1 (intf_name "s1" 1) unwired)
    × ((node : ℕ)
        → node ≢ 1
        → node ≢ 2
        → make_link host_end switch_end none none none none 7 8 (λ _. no_tables) node ≡ no_tables)
unfolding new_port
make_link-Represents_example =
    make_link-Represents host_end switch_end 7 8 (λ _. no_tables) (λ e. absurd (omega (arith, e)))
      unwired unwired no_tables-Represents no_tables-Represents refl refl (λ i p n e. absurd cc)
      (λ i p n e. absurd cc)

-- "ab" is buffered and "cd" is to come.
abbrev half : Shell
half = record {
  readbuf = 97 ∷ 98 ∷ [];
  waiting = true;
  last_pid = none;
  incoming = (99 ∷ 100 ∷ []) ∷ [];
}

read_three :
    read 3 half ≡ some (97 ∷ 98 ∷ 99 ∷ [], record half { readbuf = 100 ∷ []; incoming = [] })
unfolding read
read_three = refl

abbrev silent_shell : Shell
silent_shell = record { readbuf = []; waiting = false; last_pid = none; incoming = [] }

-- The line "ab" that comes as "a" and "b".
readline_repeats_example :
    (readline (before [] (97 ∷ []) (record silent_shell { incoming = (98 ∷ 10 ∷ []) ∷ [] }))
      ≡ some (none, before (97 ∷ []) (98 ∷ 10 ∷ []) silent_shell))
    × (readline (before (97 ∷ []) (98 ∷ 10 ∷ []) silent_shell)
        ≡ some (some (97 ∷ 97 ∷ 98 ∷ []), record silent_shell { readbuf = [] }))
readline_repeats_example =
    readline_repeats (97 ∷ []) (98 ∷ []) [] silent_shell (refl, tt) (refl, tt) (omega arith)

wait_output_spins_example : wait_output 100 true [] half ≡ none
wait_output_spins_example = wait_output_spins 100 true [] half (λ e. cc) refl

run_cmd_returns_example :
    run_cmd
      (λ _. true)
      (λ _. false)
      3
      running
      silent_shell
      false
      ("echo" ∷ "a" ∷ [])
      (record silent_shell { incoming = (97 ∷ 10 ∷ []) ∷ (13 ∷ 127 ∷ []) ∷ [] })
    ≡ some (
        ok
          (cat (cat ("echo" ∷ " " ∷ "a" ∷ []) ∷ "\n" ∷ []), some (97 ∷ 10 ∷ 13 ∷ []), silent_shell))
unfolding cat faultynet.Addresses.join_with
run_cmd_returns_example =
    run_cmd_returns (λ _. true) (λ _. false) 3 silent_shell false "echo" ("a" ∷ [])
      ((97 ∷ 10 ∷ []) ∷ []) (13 ∷ []) [] silent_shell (omega arith)
      ((omega arith, ((refl, refl), ((refl, refl), tt))), tt) (omega arith, ((refl, refl), tt))

-- "\x01" 42 in the middle of the output.
abbrev marked : Codes
marked = 97 ∷ 1 ∷ 52 ∷ 50 ∷ 13 ∷ 10 ∷ 98 ∷ []

marker_found : first_marker marked ≡ some (52 ∷ 50 ∷ [])
unfolding first_marker
marker_found = refl

marker_erased : without_markers marked ≡ 97 ∷ 98 ∷ []
unfolding without_markers
marker_erased = refl
