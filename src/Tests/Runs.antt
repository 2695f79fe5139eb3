-- ===== src/Tests/Runs.antt =====
-- The runs of a controller at concrete states, and its log.
use faultynet.Shared.{◌≤◌, ◌≡◌, refl, true, false, some, List, [], ◌∷◌, pos, Bool, ℤ, ltb_ℤ}
use faultynet.FaultLogger.{get_active_faults, ActiveFaults}
use faultynet.FaultLogger.Log.{Tick, FaultLogger, new_logger}
use faultynet.Injectors.Script.{Event, inject, eject, perform_all}
use faultynet.Injectors.Traces.{marked_after_all}
use faultynet.Injectors.Logged.{is_logged, logged-iff-injected}
use faultynet.Controllers.Runs.{
  Controller, shutdown, start_next_run, counting, waiting, injecting, drained, Step, hear, go_on,
  Run, stop, step, silent, heard, began, receive, resume_at, is_awaiting,
  deactivate_and_send_done_message,
}
use faultynet.Controllers.Runs.Obedience.{
  runs_begun, next_runs_heard, shutdown_begins_none, runs_requested,
}
use faultynet.Controllers.Runs.Spinning.{IsSpinning, repeating_nothing_spins}
use faultynet.Controllers.Runs.Completion.{Alone, IsOver, at_number, automatic_completes}
use faultynet.Controllers.Starter.{Starter, other_reply, injection_done}
use faultynet.Tests.Samples.{thousandths, quiet, start}

-- In its second of three runs.
abbrev busy : Controller
busy = record {
  mode = "automatic";
  first_run = pos 1;
  last_run = pos 3;
  is_active = true;
  do_next_run = false;
  listening = true;
  phase = injecting (pos 2);
  inbox = shutdown ∷ [];
  done_sent = false;
}

abbrev told : Controller
told = record busy { is_active = false; listening = false; inbox = [] }

hears : Step busy (heard shutdown) told
unfolding receive is_awaiting
hears = hear shutdown [] refl refl refl

ends :
    Run told
      (silent ∷ silent ∷ [])
      (record told { phase = drained; done_sent = true; inbox = shutdown ∷ [] })
unfolding resume_at deactivate_and_send_done_message
ends =
    step {d = record told { phase = counting (pos 3) }} (go_on true refl refl)
      (step (go_on true refl refl) stop)

shutdown_begins_none_example : runs_begun (silent ∷ silent ∷ []) ≡ 0
shutdown_begins_none_example = shutdown_begins_none hears ends

abbrev asked : Controller
asked = record busy { mode = "manual"; phase = waiting (pos 2); inbox = start_next_run ∷ [] }

asked_goes_on :
    Run asked
      (heard start_next_run ∷ began (pos 2) ∷ [])
      (record asked { phase = injecting (pos 2); inbox = [] })
unfolding resume_at receive is_awaiting
asked_goes_on = step (hear start_next_run [] refl refl refl) (step (go_on true refl refl) stop)

runs_requested_example :
    runs_begun (heard start_next_run ∷ began (pos 2) ∷ [])
    ≤ next_runs_heard (heard start_next_run ∷ began (pos 2) ∷ [])
runs_requested_example = runs_requested asked_goes_on refl refl

-- No link is left to choose from.
abbrev idling : Controller
idling = record busy { mode = "repeating"; phase = counting (pos 1); last_run = pos 0 }

idling-IsSpinning : IsSpinning idling
idling-IsSpinning = record {
  repeating = refl;
  active = refl;
  counts = refl;
  nothing = refl;
  not_done = refl;
}

turns : Run idling (silent ∷ []) idling
unfolding resume_at
turns = step (go_on true refl refl) stop

repeating_nothing_spins_example : IsSpinning idling
repeating_nothing_spins_example = repeating_nothing_spins turns idling-IsSpinning

-- The run of the number 3 raises.
abbrev third_raises : ℤ → Bool
third_raises n = ltb_ℤ n (pos 3)

automatic_completes_example :
    (d : Controller) × Alone third_raises
      (at_number busy 2)
      (began (pos 2) ∷ silent ∷ began (pos 3) ∷ silent ∷ [])
      d
    × IsOver false d
automatic_completes_example =
    automatic_completes busy 3
      (record { automatic = refl; active = refl; unreported = refl; range = refl }) third_raises 2 2
      refl

abbrev two_faults : List (Event thousandths)
two_faults =
    inject "a" "loss" (some "x") "x" ∷ inject "b" "delay" (some "y") "y" ∷ eject "a" (some "z") ∷ []

logged-iff-injected_example :
    is_logged "b" (get_active_faults (perform_all quiet start two_faults).active)
    ≡ marked_after_all "b" false two_faults
logged-iff-injected_example = logged-iff-injected quiet "b" two_faults []

abbrev moment : ActiveFaults → Bool → Tick
moment table stopped = record { now = pos 5; output = λ c. ""; table = table; stopped = stopped }

abbrev moments : List Tick
moments = moment (perform_all quiet start two_faults).active false ∷ moment [] true ∷ []

abbrev logger : FaultLogger
logger = new_logger (some (pos 100)) (some "log.json") (some [])

abbrev starter : Starter
starter = record { faults_are_active = false; replies = other_reply ∷ injection_done ∷ [] }
