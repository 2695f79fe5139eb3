-- ===== src/Controllers/Runs/Spinning.antt =====
-- A controller in the mode "repeating" that has no run to make.
use mathlib.Core.Path.{subst}
use mathlib.Core.Option.{some-injective}
use faultynet.Shared.{sym, ◌≢◌, ◌∙◌, ◌≡◌, refl, Bool, true, false, some, List, ltb_ℤ}
use faultynet.Controllers.Runs.{
  counting, Controller, after_runs, next_number, resume_at, Label, send, hear, go_on, Run, stop,
  step, is_awaiting,
}

pub record IsSpinning (c : Controller) : Type 0 where
  pub repeating : c.mode ≡ "repeating"
  pub active : c.is_active ≡ true
  pub counts : c.phase ≡ counting c.first_run
  pub nothing : ltb_ℤ c.last_run c.first_run ≡ true
  pub not_done : c.done_sent ≡ false

next_number_spins :
    (c : Controller)
    → IsSpinning c
    → next_number c.first_run c ≡ record c { phase = counting c.first_run }
unfolding next_number after_runs
next_number_spins c s = rw (s.nothing, s.repeating, s.active) refl

-- The waiting modes and the head of the loop have no await where the range of runs is empty.
resume_spins :
    (returns : Bool) (c d : Controller)
    → IsSpinning c
    → resume_at returns c.phase c ≡ some d
    → IsSpinning d
unfolding resume_at
resume_spins returns c d s e =
    let same : some (next_number c.first_run c) ≡ some d = rw s.counts at e in
    let q : record c { phase = counting c.first_run } ≡ d =
      sym (next_number_spins c s) ∙ some-injective (next_number c.first_run c) d same in
    subst IsSpinning q (record {
      repeating = s.repeating;
      active = s.active;
      counts = refl;
      nothing = s.nothing;
      not_done = s.not_done;
    })

counting_not_awaiting :
    (c : Controller) → c.phase ≡ counting c.first_run → is_awaiting c.phase ≢ true
unfolding is_awaiting
counting_not_awaiting c s a = let e : false ≡ true = rw s at a in cc

-- A controller in the mode "repeating" whose range of runs is empty, as with no link to choose from,
-- never leaves the loop of `go`: whatever the starter sends, it stays active, hears no message and
-- reports no end.
pub repeating_nothing_spins :
    {c d : Controller} {ls : List Label} → Run c ls d → IsSpinning c → IsSpinning d
repeating_nothing_spins stop s = s
repeating_nothing_spins (step (send m) run) s = repeating_nothing_spins run (record {
  repeating = s.repeating;
  active = s.active;
  counts = s.counts;
  nothing = s.nothing;
  not_done = s.not_done;
})
repeating_nothing_spins (step {c} (hear m rest i l a) run) s =
    absurd (counting_not_awaiting c s.counts a)
repeating_nothing_spins (step (go_on returns e l) run) s =
    repeating_nothing_spins run (resume_spins returns _ _ s e)
