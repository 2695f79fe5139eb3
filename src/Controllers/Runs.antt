-- ===== src/Controllers/Runs.antt =====
-- The life of a controller that injects in numbered runs: `go`, `_wait_for_next_run` and the end in
-- RandomLinkFaultController.py and MostUsedLinkFaultController.py, with `wait_until_go`,
-- `listen_for_pipe_messages` and `deactivate_and_send_done_message` of BaseFaultController.py.
-- The coroutine of `go` runs without interruption from one `await` to the next.
pub mod Obedience
pub mod Spinning
pub mod Completion
use faultynet.Shared.{
  String, Bool, true, false, not, ◌&&◌, ◌||◌, Option, none, some, List, [], ◌∷◌, ◌++◌, ℤ, pos,
  ltb_ℤ, ◌+ℤ◌, str_eq, if◌then◌else◌, ◌≡◌,
}

-- What the starter sends, other texts included.
pub data Message : Type 0 where
  start_injecting shutdown start_next_run unexpected : Message

-- Where the coroutine of `go` stands: not yet called; at the head of the `for` with a number; in
-- the `await` of `_wait_for_next_run`; in the `gather` of a run; in the `await` of the listener at
-- the end; returned; ended by an exception of a run, with the listener cancelled.
pub data Phase : Type 0 where
  idle drained finished failed : Phase
  counting waiting injecting : ℤ → Phase

pub record Controller : Type 0 where
  pub mode : String
  pub first_run : ℤ
  pub last_run : ℤ
  pub is_active : Bool
  pub do_next_run : Bool
  pub listening : Bool
  pub phase : Phase
  pub inbox : List Message
  pub done_sent : Bool

abbrev pub waits : String → Bool
waits mode = str_eq mode "manual" || str_eq mode "repeating"

-- `super().go()`: the controller is active and its listener exists.
unfoldable pub wait_until_go : Message → Controller → Controller
wait_until_go start_injecting c = record c {
  is_active = true;
  listening = true;
  phase = counting c.first_run;
}
wait_until_go _ c = record c { phase = finished }

-- One message of `listen_for_pipe_messages`; `shutdown` ends the listener.
unfoldable pub receive : Message → Controller → Controller
receive shutdown c = record c { is_active = false; listening = false }
receive start_next_run c = record c { do_next_run = true }
receive _ c = c

-- `deactivate_and_send_done_message`, up to its `await`; the shutdown it sends goes to its own pipe.
unfoldable pub deactivate_and_send_done_message : Controller → Controller
deactivate_and_send_done_message c = record c {
  is_active = false;
  done_sent = true;
  inbox = c.inbox ++ (shutdown ∷ []);
  phase = drained;
}

-- The end of the `for`, also by `break`: once more from the start, or the end of the `while`.
unfoldable pub after_runs : Controller → Controller
unfolding deactivate_and_send_done_message
after_runs c =
    if not (str_eq c.mode "repeating") || not c.is_active
    then deactivate_and_send_done_message c
    else record c { phase = counting c.first_run }

-- Behind `_wait_for_next_run`.
unfoldable pub begin_run : ℤ → Controller → Controller
unfolding after_runs
begin_run n c = if c.is_active then record c { phase = injecting n } else after_runs c

-- The head of the `for`. An unknown mode is logged and goes on as the automatic one.
unfoldable pub next_number : ℤ → Controller → Controller
unfolding after_runs begin_run
next_number n c =
    if ltb_ℤ c.last_run n
    then after_runs c
    else if waits c.mode
    then record c { phase = waiting n }
    else begin_run n c

-- `while self.do_next_run is False and self.is_active is True`: `none` while it goes on.
unfoldable pub wait_for_next_run : ℤ → Controller → Option Controller
unfolding begin_run
wait_for_next_run n c =
    if not c.do_next_run && c.is_active
    then none
    else some (begin_run n (record c { do_next_run = false }))

-- Does the coroutine stand at an `await`, where the listener may run.
unfoldable pub is_awaiting : Phase → Bool
is_awaiting (waiting n) = true
is_awaiting (injecting n) = true
is_awaiting drained = true
is_awaiting _ = false

-- What happens, as an observer sees it.
pub data Label : Type 0 where
  sent heard : Message → Label
  began : ℤ → Label
  silent : Label

-- The end of a run: an exception of its injectors, or of their making, ends `go`, and `asyncio.run`
-- cancels the listener. Nothing is reported.
unfoldable pub end_run : Bool → ℤ → Controller → Controller
end_run true n c = record c { phase = counting (n +ℤ pos 1) }
end_run false n c = record c { phase = failed; listening = false }

-- The coroutine's next piece, from where it stands; the run of a number begins with the label
-- `began`. A run returns or raises, as the first argument says.
unfoldable pub resume_at : Bool → Phase → Controller → Option Controller
unfolding next_number wait_for_next_run end_run
resume_at returns idle c = none
resume_at returns (counting n) c = some (next_number n c)
resume_at returns (waiting n) c = wait_for_next_run n c
resume_at returns (injecting n) c = some (end_run returns n c)
resume_at returns drained c = if c.listening then none else some (record c { phase = finished })
resume_at returns finished c = none
resume_at returns failed c = none

abbrev pub label_of : Phase → Label
label_of (injecting n) = began n
label_of _ = silent

-- The steps of the starter, the listener and the coroutine.
pub data Step : Controller → Label → Controller → Type 0 where
  send : {c : Controller} (m : Message) → Step c (sent m) (record c { inbox = c.inbox ++ (m ∷ []) })
  hear :
      {c : Controller} (m : Message) (rest : List Message)
      → c.inbox ≡ m ∷ rest
      → c.listening ≡ true
      → is_awaiting c.phase ≡ true
      → Step c (heard m) (receive m (record c { inbox = rest }))
  go_on :
      {c c' : Controller} {l : Label} (returns : Bool)
      → resume_at returns c.phase c ≡ some c'
      → label_of c'.phase ≡ l
      → Step c l c'

pub data Run : Controller → List Label → Controller → Type 0 where
  stop : {c : Controller} → Run c [] c
  step :
      {c d e : Controller} {l : Label} {ls : List Label}
      → Step c l d
      → Run d ls e
      → Run c (l ∷ ls) e
