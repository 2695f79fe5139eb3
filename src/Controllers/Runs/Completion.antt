-- ===== src/Controllers/Runs/Completion.antt =====
-- The runs of a controller in the mode "automatic", when nothing interrupts it.
use faultynet.Shared.{
  ℕ, zero, suc, ◌+◌, ◌≡◌, refl, Bool, true, false, not, ◌&&◌, Bool-cases, inl, inr, some, List, [],
  ◌∷◌, ℤ, pos, ◌+ℤ◌, arith, ap, ltb_ℤ, if◌then◌else◌,
}
use faultynet.Controllers.Runs.{
  Controller, Phase, counting, injecting, drained, failed, deactivate_and_send_done_message,
  after_runs, begin_run, next_number, end_run, resume_at, Label, began, silent, label_of, go_on,
  Run, stop, step,
}

-- Which way a run ends is asked where the controller stands in one.
abbrev pub outcome_at : (ℤ → Bool) → Phase → Bool
outcome_at returns (injecting n) = returns n
outcome_at returns _ = true

-- A run of the coroutine of `go` alone: no message arrives, and the run of the number n returns
-- where `returns n` is true, and raises where it is false.
pub data Alone (returns : ℤ → Bool) : Controller → List Label → Controller → Type 0 where
  rest : {c : Controller} → Alone returns c [] c
  next :
      {c d e : Controller} {ls : List Label}
      → resume_at (outcome_at returns c.phase) c.phase c ≡ some d
      → Alone returns d ls e
      → Alone returns c (label_of d.phase ∷ ls) e

-- It is a run.
pub alone-Run :
    {returns : ℤ → Bool} {c d : Controller} {ls : List Label} → Alone returns c ls d → Run c ls d
alone-Run rest = stop
alone-Run {returns} (next {c = c} e run) =
    step (go_on (outcome_at returns c.phase) e refl) (alone-Run run)

module _ (returns : ℤ → Bool) where
  -- Do the `k` runs from a number all return.
  abbrev pub all_return : ℕ → ℕ → Bool
  all_return n zero = true
  all_return n (suc k) = let later = all_return (suc n) k in returns (pos n) && later

  -- The labels of the `k` runs from a number up to the first that raises, and of the end.
  abbrev pub schedule : ℕ → ℕ → List Label
  schedule n zero = silent ∷ []
  schedule n (suc k) =
      let later = schedule (suc n) k in
      began (pos n) ∷ silent ∷ (if returns (pos n) then later else [])

abbrev pub at_number : Controller → ℕ → Controller
at_number c n = record c { phase = counting (pos n) }

pub record IsAutomatic (c : Controller) (last : ℕ) : Type 0 where
  pub automatic : c.mode ≡ "automatic"
  pub active : c.is_active ≡ true
  pub unreported : c.done_sent ≡ false
  pub range : c.last_run ≡ pos last

-- Where a controller stands at the end, as its runs have all returned or not: it has sent the done
-- message and is no longer active, or `go` was ended by an exception and it is neither.
pub record IsOver (all_returned : Bool) (d : Controller) : Type 0 where
  pub reported : d.done_sent ≡ all_returned
  pub active : d.is_active ≡ not all_returned
  pub phase : d.phase ≡ (if all_returned then drained else failed)

module _ (c : Controller) (last : ℕ) (a : IsAutomatic c last) where
  next_begins :
      (n k : ℕ)
      → n + suc k ≡ suc last
      → next_number (pos n) (at_number c n) ≡ record c { phase = injecting (pos n) }
  unfolding next_number begin_run
  next_begins n k h =
      let early : ltb_ℤ (pos last) (pos n) ≡ false = ground arith in
      rw (a.range, early, a.automatic, a.active) refl

  next_ends :
      (n : ℕ)
      → n + 0 ≡ suc last
      → next_number (pos n) (at_number c n) ≡ deactivate_and_send_done_message c
  unfolding next_number after_runs deactivate_and_send_done_message
  next_ends n h =
      let late : ltb_ℤ (pos last) (pos n) ≡ true = ground arith in
      rw (a.range, late, a.automatic) refl

  next_counts : (n : ℕ) → pos n +ℤ pos 1 ≡ pos (suc n)
  next_counts n = ground arith

  module _ (returns : ℤ → Bool) where
    returning :
        (n : ℕ)
        → returns (pos n) ≡ true
        → resume_at (returns (pos n)) (injecting (pos n)) (record c { phase = injecting (pos n) })
          ≡ some (at_number c (suc n))
    unfolding resume_at end_run
    returning n h = rw (h, next_counts n) refl

    raising :
        (n : ℕ)
        → returns (pos n) ≡ false
        → resume_at (returns (pos n)) (injecting (pos n)) (record c { phase = injecting (pos n) })
          ≡ some (record c { phase = failed; listening = false })
    unfolding resume_at end_run
    raising n h = rw h refl

    begins_alone :
        (n k : ℕ)
        → n + suc k ≡ suc last
        → resume_at true (counting (pos n)) (at_number c n)
          ≡ some (record c { phase = injecting (pos n) })
    unfolding resume_at
    begins_alone n k h = ap some (next_begins n k h)

    ends_alone :
        (n : ℕ)
        → n + 0 ≡ suc last
        → resume_at true (counting (pos n)) (at_number c n)
          ≡ some (deactivate_and_send_done_message c)
    unfolding resume_at
    ends_alone n h = ap some (next_ends n h)

    -- An active controller in the mode "automatic" that has not reported its end stands at a number,
    -- and no message arrives. It makes the runs that are left, each once and in order, up to the
    -- first that raises. If none raises then it ends with the done message sent and is inactive; if
    -- one does then `go` ends with the exception, no done message is sent, and it is still active.
    pub automatic_completes :
        (k n : ℕ)
        → n + k ≡ suc last
        → (d : Controller) × Alone returns (at_number c n) (schedule returns n k) d
          × IsOver (all_return returns n k) d
    unfolding deactivate_and_send_done_message
    automatic_completes zero n h = (
      deactivate_and_send_done_message c,
      next (ends_alone n h) rest,
      record { reported = refl; active = refl; phase = refl },
    )
    automatic_completes (suc k) n h = elim (Bool-cases (returns (pos n))) [
      | inl good ↦
          let (d, run, over) = automatic_completes k (suc n) (omega (arith, h)) in
          rw good (d, next (begins_alone n k h) (next (returning n good) run), over)
      | inr bad ↦ rw bad (
        record c { phase = failed; listening = false },
        next (begins_alone n k h) (next (raising n bad) rest),
        record { reported = a.unreported; active = a.active; phase = refl },
      )
    ]
