-- ===== src/Tests/Gatherings.antt =====
-- The injectors of a configuration run together.
use faultynet.Shared.{
  ◌≡◌, refl, Option, ℕ, List, [], ◌∷◌, ◌++◌, ok, type_error, eq_iff, arith, lookup, insert, is_in,
  ap,
}
use faultynet.Injectors.Script.{Event, perform_all, sleep}
use faultynet.Values.{to_float, to_int}
use faultynet.Injectors.Tc.{make_nics_injection_command}
use faultynet.Injectors.Link
use faultynet.Injectors.Multi
use faultynet.Injectors.Traces.{Merge, done, theirs, is_marked}
use faultynet.Injectors.Node.{Host}
use faultynet.Controllers.ConfigFile.{Injector, link, multi}
use faultynet.Controllers.ConfigFile.Gathering.{
  injector_go, ending_of, raised, cancelled, ended, unbegun, nobody, joined, reports,
}
use faultynet.Controllers.ConfigFile.Gathering.Emptied.{
  reported_run_empties, leftovers-IsUnfinished, IsUnfinished,
}
use faultynet.Tests.Samples.{thousandths, quiet, lossy, endless, alone}
use faultynet.Tests.Nodes.{idle_host, several}

abbrev hosts : Option ℕ → Host thousandths
hosts pid = idle_host

abbrev two : List (Injector thousandths)
two = link lossy ∷ multi several ∷ []

-- The second fault is put on and removed before the first one begins.
late : (xs ys : List (Event thousandths)) → Merge xs ys (ys ++ xs)
late xs [] = alone xs
late xs (y ∷ ys) = theirs (late xs ys)

abbrev in_turn : List (Event thousandths)
in_turn =
    (injector_go "/bin" hosts (multi several)).events
    ++ (injector_go "/bin" hosts (link lossy)).events

lossy_returns : (injector_go "/bin" hosts (link lossy)).result ≡ ok tt
unfolding injector_go Link.do_injection Link.inject_by_pattern Link.inject_burst_pattern to_float
    to_int is_in sleep make_nics_injection_command
lossy_returns = refl

several_returns : (injector_go "/bin" hosts (multi several)).result ≡ ok tt
unfolding injector_go Multi.do_injection sleep Multi.inject_persistent
several_returns = refl

reported_run_empties_example :
    (perform_all quiet (record { active = []; history = [] }) in_turn).active ≡ []
reported_run_empties_example =
    reported_run_empties "/bin" hosts two quiet [] in_turn
      (((λ e. ground (arith, e, eq_iff "m@h1" "f@s1->h1")), tt), (tt, tt))
      (reports (joined ended (joined ended nobody (alone _)) (late _ _))
        (ap ending_of lossy_returns, (ap ending_of several_returns, tt)))

-- The first fault cannot read its injection time and raises while it is active; the second one is
-- cancelled.
leftovers-IsUnfinished_example :
    IsUnfinished {F = thousandths} "f@s1->h1"
      (link endless ∷ multi several ∷ [])
      (raised type_error ∷ cancelled ∷ [])
unfolding injector_go is_marked lookup Link.do_injection to_float sleep Link.inject_by_pattern is_in
    Link.inject_persistent_pattern make_nics_injection_command perform_all insert
leftovers-IsUnfinished_example =
    leftovers-IsUnfinished "/bin" hosts "f@s1->h1" (link endless ∷ multi several ∷ []) quiet []
      (injector_go "/bin" hosts (link endless)).events (raised type_error ∷ cancelled ∷ [])
      (((λ e. ground (arith, e, eq_iff "m@h1" "f@s1->h1")), tt), (tt, tt))
      (joined ended (joined unbegun nobody done) (alone _)) refl
