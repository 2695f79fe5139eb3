-- ===== src/Controllers/LogOnly.antt =====
-- LogOnlyFaultController.py: `go`, which only waits for the message for shutdown, and the starter's
-- configuration. The phases are those of `Controllers/Runs`: `counting` is the test of `is_active`,
-- `waiting` the `await` behind it.
pub mod Patience
use Prim.Native.Char.{Char}
use faultynet.Shared.{
  ℕ, String, Bool, true, not, Option, none, some, List, [], ◌∷◌, ◌++◌, ◌≡◌, if◌then◌else◌,
}
use faultynet.Values.{Floats}
use faultynet.Network.{Net}
use faultynet.FaultLogger.Log.{DebugCommand}
use faultynet.Controllers.Logging.{LogCommand, LogConfig, get_controller_log_dict}
use faultynet.Controllers.Runs.{
  Controller, Message, Label, sent, heard, silent, drained, finished, counting, waiting, Phase,
  receive, is_awaiting, deactivate_and_send_done_message,
}

-- `if not self.is_active: break`, then the `await`
unfoldable pub test_active : Controller → Controller
unfolding deactivate_and_send_done_message
test_active c =
    if not c.is_active
    then deactivate_and_send_done_message c
    else record c { phase = waiting c.first_run }

-- The next piece of `go`.
unfoldable pub resume_log : Phase → Controller → Option Controller
unfolding test_active
resume_log (counting n) c = some (test_active c)
resume_log (waiting n) c = some (record c { phase = counting n })
resume_log drained c = if c.listening then none else some (record c { phase = finished })
resume_log _ c = none

-- The steps of the starter, the listener and the coroutine.
pub data LogStep : Controller → Label → Controller → Type 0 where
  told :
      {c : Controller} (m : Message) → LogStep c (sent m) (record c { inbox = c.inbox ++ (m ∷ []) })
  listened :
      {c : Controller} (m : Message) (rest : List Message)
      → c.inbox ≡ m ∷ rest
      → c.listening ≡ true
      → is_awaiting c.phase ≡ true
      → LogStep c (heard m) (receive m (record c { inbox = rest }))
  went_on : {c c' : Controller} → resume_log c.phase c ≡ some c' → LogStep c silent c'

pub data LogRun : Controller → List Label → Controller → Type 0 where
  at_rest : {c : Controller} → LogRun c [] c
  then_step :
      {c d e : Controller} {l : Label} {ls : List Label}
      → LogStep c l d
      → LogRun d ls e
      → LogRun c (l ∷ ls) e

-- `make_controller_config` of the starter: what stands under `log` for the controller.
module _ (is_word : Char → Bool) (net : Net) (uuid : ℕ → String) where
  unfoldable pub log_only_config :
      {F : Floats} → Option (Option (LogConfig F LogCommand)) → Option (LogConfig F DebugCommand)
  unfolding get_controller_log_dict
  log_only_config log = get_controller_log_dict is_word net uuid log
