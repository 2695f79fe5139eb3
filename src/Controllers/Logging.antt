-- ===== src/Controllers/Logging.antt =====
-- BaseFaultController.py: the configuration of the logger, on the starter's side
-- (`get_controller_log_dict`) and on the controller's (`_config_logger`).
use Prim.Native.Char.{Char}
use faultynet.Shared.{
  ℕ, zero, suc, String, Bool, Option, none, some, List, [], ◌∷◌, ℤ, pos, negsuc, Result, ok, ◌>>=◌,
}
use faultynet.Values.{Floats, Value, to_int}
use faultynet.Network.{Net}
use faultynet.FaultLogger.Log.{DebugCommand, FaultLogger, new_logger}
use faultynet.Controllers.Identifiers.{get_mininet_agnostic_identifiers}

-- A command under `log: commands:` as the user writes it.
pub record LogCommand : Type 0 where
  pub tag : Option String
  pub host : Option String
  pub command : String

-- The object under `log:`, with commands of the user or of the controller: `none` where the key is
-- missing, `some none` where it has no value.
pub record LogConfig (F : Floats) (C : Type 0) : Type 0 where
  pub interval : Option (Value F)
  pub path : Option String
  pub commands : Option (Option (List C))

abbrev pub tag_or : Option String → String → String
tag_or none fresh = fresh
tag_or (some t) fresh = t

module _ (is_word : Char → Bool) (net : Net) (uuid : ℕ → String) where
  unfoldable pub log_command : ℕ → LogCommand → DebugCommand
  unfolding get_mininet_agnostic_identifiers
  log_command i c = record {
    tag = tag_or c.tag (uuid i);
    host = (get_mininet_agnostic_identifiers is_word net c.host).process_group_id;
    command = c.command;
  }

  -- The loop over the commands; `uuid` gives the random tag of each.
  unfoldable pub log_commands : ℕ → List LogCommand → List DebugCommand
  unfolding log_command
  log_commands i [] = []
  log_commands i (c ∷ cs) = log_command i c ∷ log_commands (suc i) cs

  abbrev some_commands : Option (Option (List LogCommand)) → Option (Option (List DebugCommand))
  some_commands none = none
  some_commands (some none) = some none
  some_commands (some (some cs)) = some (some (log_commands 0 cs))

  -- `none` where the key `log` is missing, `some none` where it has no value.
  unfoldable pub get_controller_log_dict :
      {F : Floats} → Option (Option (LogConfig F LogCommand)) → Option (LogConfig F DebugCommand)
  unfolding log_commands
  get_controller_log_dict none = none
  get_controller_log_dict (some none) =
      some (record { interval = none; path = none; commands = none })
  get_controller_log_dict (some (some l)) =
      some (record { interval = l.interval; path = l.path; commands = some_commands l.commands })

-- `int(log_config.get("interval", 0))`
abbrev interval_of : {F : Floats} → Option (Value F) → Result ℤ
interval_of none = ok (pos 0)
interval_of (some v) = to_int v

-- `0` stands for no interval.
abbrev pub interval_given : ℤ → Option ℤ
interval_given (pos zero) = none
interval_given (pos (suc n)) = some (pos (suc n))
interval_given (negsuc n) = some (negsuc n)

abbrev commands_or_empty : Option (Option (List DebugCommand)) → Option (List DebugCommand)
commands_or_empty none = some []
commands_or_empty (some cs) = cs

unfoldable pub config_logger :
    {F : Floats} → Option (LogConfig F DebugCommand) → Result (Option FaultLogger)
unfolding to_int new_logger
config_logger none = ok none
config_logger (some l) = interval_of l.interval >>= λ i.
    ok (some (new_logger (interval_given i) l.path (commands_or_empty l.commands)))
