-- ===== src/Controllers/LogOnly/Patience.antt =====
-- A controller that only logs ends when it is told to, and not before.
use mathlib.Core.Path.{subst}
use faultynet.Shared.{
  true, false, List, [], ◌∷◌, ◌≡◌, ◌≢◌, ◌⊎◌, inl, inr, refl, sym, ap, ◌∙◌, All, Option, none, some,
  arith,
}
use faultynet.Controllers.Runs.{
  Controller, Message, shutdown, start_injecting, start_next_run, unexpected, Label, heard, silent,
  counting, waiting, receive, deactivate_and_send_done_message,
}
use faultynet.Controllers.LogOnly.{
  test_active, resume_log, LogStep, told, listened, went_on, LogRun, at_rest, then_step,
}

-- Active, in its loop, and without a word about the end.
pub record IsPatient (c : Controller) : Type 0 where
  pub active : c.is_active ≡ true
  pub quiet : c.done_sent ≡ false
  pub looping : (c.phase ≡ counting c.first_run) ⊎ (c.phase ≡ waiting c.first_run)

heard_on :
    (m : Message) (c : Controller)
    → heard m ≢ heard shutdown
    → IsPatient c
    → IsPatient (receive m c)
unfolding receive
heard_on shutdown c other p = absurd (other refl)
heard_on start_injecting c other p = p
heard_on start_next_run c other p = record {
  active = p.active;
  quiet = p.quiet;
  looping = p.looping;
}
heard_on unexpected c other p = p

stays :
    (c : Controller) → c.is_active ≡ true → test_active c ≡ record c { phase = waiting c.first_run }
unfolding test_active
stays c h = ground (arith, h)

abbrev value_or : Controller → Option Controller → Controller
value_or c none = c
value_or c (some d) = d

step_to :
    (c d : Controller)
    → resume_log c.phase c ≡ some d
    → IsPatient c
    → (record c { phase = waiting c.first_run } ≡ d)
      ⊎ (record c { phase = counting c.first_run } ≡ d)
unfolding resume_log
step_to c d e p = elim (p.looping) [
  | inl ph ↦ inl (sym (stays c p.active) ∙ ap (value_or c) (ap (λ q. resume_log q c) (sym ph) ∙ e))
  | inr ph ↦ inr (ap (value_or c) (ap (λ q. resume_log q c) (sym ph) ∙ e))
]

go_on-IsPatient : (c d : Controller) → resume_log c.phase c ≡ some d → IsPatient c → IsPatient d
go_on-IsPatient c d e p = elim (step_to c d e p) [
  | inl to ↦ subst IsPatient to (record { active = p.active; quiet = p.quiet; looping = inr refl })
  | inr to ↦ subst IsPatient to (record { active = p.active; quiet = p.quiet; looping = inl refl })
]

step-IsPatient :
    (c d : Controller) (l : Label) → LogStep c l d → l ≢ heard shutdown → IsPatient c → IsPatient d
step-IsPatient c _ _ (told m) other p = record {
  active = p.active;
  quiet = p.quiet;
  looping = p.looping;
}
step-IsPatient c _ _ (listened m rest e on here) other p =
    heard_on m (record c { inbox = rest }) other
      (record { active = p.active; quiet = p.quiet; looping = p.looping })
step-IsPatient c d _ (went_on e) other p = go_on-IsPatient c d e p

-- In any interleaving of starter, listener and loop, a controller that only logs stays active, stays in
-- its loop and reports no end as long as it has not heard the message for shutdown.
run-IsPatient :
    (c d : Controller) (ls : List Label)
    → LogRun c ls d
    → All (λ l. l ≢ heard shutdown) ls
    → IsPatient c
    → IsPatient d
run-IsPatient c _ _ at_rest all p = p
run-IsPatient c d _ (then_step {d = e} {l} {ls} s run) all p =
    run-IsPatient e d ls run all.1 (step-IsPatient c e l s all.0 p)

leaves : (c : Controller) → c.is_active ≡ false → test_active c ≡ deactivate_and_send_done_message c
unfolding test_active
leaves c h = ground (arith, h)

-- Once it is no longer active, two steps of the loop are enough to report the end.
ends :
    (c : Controller)
    → c.is_active ≡ false
    → c.phase ≡ waiting c.first_run
    → LogRun c
        (silent ∷ silent ∷ [])
        (deactivate_and_send_done_message (record c { phase = counting c.first_run }))
unfolding resume_log test_active
ends c off ph =
    then_step (went_on (ap (λ q. resume_log q c) ph)) (
      then_step (went_on (ap some (leaves (record c { phase = counting c.first_run }) off)))
        at_rest)
