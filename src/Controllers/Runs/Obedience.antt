-- ===== src/Controllers/Runs/Obedience.antt =====
-- What a controller with numbered runs does on the messages of its starter.
use faultynet.Shared.{
  ◌≢◌, ap, ◌≤◌, ◌+◌, ℕ, Bool, true, false, ◌≡◌, refl, some, List, [], ◌∷◌, ℤ, arith, if◌then◌else◌,
}
use faultynet.Controllers.Runs.{
  Message, start_injecting, shutdown, start_next_run, unexpected, Phase, idle, drained, finished,
  failed, end_run, counting, waiting, injecting, Controller, waits, receive,
  deactivate_and_send_done_message, after_runs, begin_run, next_number, wait_for_next_run,
  resume_at, Label, heard, began, label_of, Step, send, hear, go_on, Run, stop, step,
}

-- How many runs a sequence of labels begins, and how often it hears a message.
abbrev pub begun_by : Label → ℕ
begun_by (began n) = 1
begun_by _ = 0

abbrev pub runs_begun : List Label → ℕ
runs_begun [] = 0
runs_begun (l ∷ ls) = begun_by l + runs_begun ls

quiet_after_runs :
    (c : Controller)
    → c.is_active ≡ false
    → ((after_runs c).is_active ≡ false) × (begun_by (label_of (after_runs c).phase) ≡ 0)
unfolding after_runs deactivate_and_send_done_message
quiet_after_runs c h = ground arith

quiet_next_number :
    (n : ℤ) (c : Controller)
    → c.is_active ≡ false
    → ((next_number n c).is_active ≡ false) × (begun_by (label_of (next_number n c).phase) ≡ 0)
unfolding next_number begin_run
quiet_next_number n c h = ground (arith, quiet_after_runs c)

quiet_waiting :
    (n : ℤ) (c c' : Controller)
    → c.is_active ≡ false
    → wait_for_next_run n c ≡ some c'
    → (c'.is_active ≡ false) × (begun_by (label_of c'.phase) ≡ 0)
unfolding wait_for_next_run begin_run
quiet_waiting n c c' h e = ground (arith, quiet_after_runs (record c { do_next_run = false }))

quiet_resume :
    (returns : Bool) (p : Phase) (c c' : Controller)
    → c.is_active ≡ false
    → resume_at returns p c ≡ some c'
    → (c'.is_active ≡ false) × (begun_by (label_of c'.phase) ≡ 0)
unfolding resume_at end_run
quiet_resume returns idle c c' h e = absurd cc
quiet_resume returns (counting n) c c' h e = ground (arith, quiet_next_number n c h)
quiet_resume returns (waiting n) c c' h e = quiet_waiting n c c' h e
quiet_resume true (injecting n) c c' h e = ground arith
quiet_resume false (injecting n) c c' h e = ground arith
quiet_resume returns drained c c' h e = ground arith
quiet_resume returns finished c c' h e = absurd cc
quiet_resume returns failed c c' h e = absurd cc

quiet_receive :
    (m : Message) (c : Controller) → c.is_active ≡ false → (receive m c).is_active ≡ false
unfolding receive
quiet_receive start_injecting c h = h
quiet_receive shutdown c h = refl
quiet_receive start_next_run c h = h
quiet_receive unexpected c h = h

inactive_begins_none :
    {c c' : Controller} {ls : List Label} → Run c ls c' → c.is_active ≡ false → runs_begun ls ≡ 0
inactive_begins_none stop h = refl
inactive_begins_none (step (send m) run) h = omega (arith, inactive_begins_none run h)
inactive_begins_none (step (hear m rest i l a) run) h =
    omega (arith, inactive_begins_none run (quiet_receive m _ h))
inactive_begins_none (step (go_on returns e l) run) h =
    let (h', q) = quiet_resume returns _ _ _ h e in
    omega (arith, ap begun_by l, q, inactive_begins_none run h')

label_ne_heard : (p : Phase) (m : Message) → label_of p ≢ heard m
label_ne_heard idle m h = cc
label_ne_heard drained m h = cc
label_ne_heard finished m h = cc
label_ne_heard failed m h = cc
label_ne_heard (counting n) m h = cc
label_ne_heard (waiting n) m h = cc
label_ne_heard (injecting n) m h = cc

-- In whatever order the starter, the listener and the coroutine of `go` take their steps: once a
-- controller has heard the message for shutdown, it begins no further run.
pub shutdown_begins_none :
    {c d e : Controller} {ls : List Label}
    → Step c (heard shutdown) d
    → Run d ls e
    → runs_begun ls ≡ 0
unfolding receive
shutdown_begins_none (hear shutdown rest i l a) run = inactive_begins_none run refl
shutdown_begins_none {d} (go_on returns e l) run = absurd (label_ne_heard d.phase shutdown l)

-- How often the message for the next run is heard.
abbrev pub heard_by : Label → ℕ
heard_by (heard start_next_run) = 1
heard_by _ = 0

abbrev pub next_runs_heard : List Label → ℕ
next_runs_heard [] = 0
next_runs_heard (l ∷ ls) = heard_by l + next_runs_heard ls

-- A request that waits.
abbrev pub pending : Controller → ℕ
pending c = if c.do_next_run then 1 else 0

budget_after_runs :
    (c : Controller)
    → (pending (after_runs c) ≡ pending c)
      × ((after_runs c).mode ≡ c.mode)
      × (begun_by (label_of (after_runs c).phase) ≡ 0)
unfolding after_runs deactivate_and_send_done_message
budget_after_runs c = ground arith

budget_resume :
    (returns : Bool) (p : Phase) (c c' : Controller)
    → waits c.mode ≡ true
    → resume_at returns p c ≡ some c'
    → (waits c'.mode ≡ true) × (begun_by (label_of c'.phase) + pending c' ≤ pending c)
unfolding resume_at end_run next_number wait_for_next_run begin_run
budget_resume returns idle c c' h e = absurd cc
budget_resume returns (counting n) c c' h e = ground (arith, budget_after_runs c)
budget_resume returns (waiting n) c c' h e =
    ground (arith, budget_after_runs (record c { do_next_run = false }))
budget_resume true (injecting n) c c' h e = ground arith
budget_resume false (injecting n) c c' h e = ground arith
budget_resume returns drained c c' h e = ground arith
budget_resume returns finished c c' h e = absurd cc
budget_resume returns failed c c' h e = absurd cc

budget_receive :
    (m : Message) (c : Controller)
    → ((receive m c).mode ≡ c.mode) × (pending (receive m c) ≤ heard_by (heard m) + pending c)
unfolding receive
budget_receive start_injecting c = (refl, omega arith)
budget_receive shutdown c = (refl, omega arith)
budget_receive start_next_run c = (refl, ground arith)
budget_receive unexpected c = (refl, omega arith)

budget :
    {c c' : Controller} {ls : List Label}
    → Run c ls c'
    → waits c.mode ≡ true
    → runs_begun ls ≤ next_runs_heard ls + pending c
budget stop h = omega arith
budget (step (send m) run) h = omega (arith, budget run h)
budget (step {c} (hear m rest i l a) run) h =
    let (e, le) = budget_receive m (record c { inbox = rest }) in
    omega (arith, le, budget run (rw e h))
budget (step {c} {d} (go_on returns e l) run) h =
    let (h', le) = budget_resume returns c.phase _ _ h e in
    omega (arith, ap begun_by l, le, budget run h')

-- In the modes "manual" and "repeating" a controller that has been configured begins at most as many
-- runs as it has heard requests for one.
pub runs_requested :
    {c c' : Controller} {ls : List Label}
    → Run c ls c'
    → waits c.mode ≡ true
    → c.do_next_run ≡ false
    → runs_begun ls ≤ next_runs_heard ls
runs_requested {c} run h n = omega (arith, budget run h, ap {B = ℕ} (λ b. if b then 1 else 0) n)
