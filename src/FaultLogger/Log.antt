-- ===== src/FaultLogger/Log.antt =====
-- mininet/faultlogger.py: `FaultLogger`, which notes at each interval what is active.
use faultynet.Shared.{
  if◌then◌else◌, ℕ, String, Bool, true, false, Option, none, some, List, [], ◌∷◌, ◌++◌, map, ℤ, pos,
  ◌-ℤ◌, cat, show_ℕ,
}
use faultynet.FaultLogger.{Entry, ActiveFaults, get_active_faults}

-- A command of the configuration, with the process id of its host.
pub record DebugCommand : Type 0 where
  pub tag : String
  pub host : Option ℕ
  pub command : String

pub record DebugOutput : Type 0 where
  pub tag : String
  pub command : String
  pub output : String

-- `commands` is `none` for the text "", which stands where there is no list of commands.
pub record LogEntry : Type 0 where
  pub time_ms : ℤ
  pub time_since_start_ms : ℤ
  pub active_faults : List Entry
  pub commands : Option (List DebugOutput)

-- The interval is in milliseconds.
pub record FaultLogger : Type 0 where
  pub interval : ℤ
  pub log_filepath : String
  pub commands : Option (List DebugCommand)
  pub logged_faults : List LogEntry
  pub start_time_ms : ℤ
  pub active : Bool

abbrev pub interval_or_default : Option ℤ → ℤ
interval_or_default none = pos 1000
interval_or_default (some i) = i

abbrev pub path_or_default : Option String → String
path_or_default none = "faultynet_faultlogfile.json"
path_or_default (some p) = p

-- `__init__`; the start time is set by `go`.
unfoldable pub new_logger : Option ℤ → Option String → Option (List DebugCommand) → FaultLogger
new_logger interval log_filepath commands = record {
  interval = interval_or_default interval;
  log_filepath = path_or_default log_filepath;
  commands = commands;
  logged_faults = [];
  start_time_ms = pos 0;
  active = false;
}

unfoldable pub full_debug_command : DebugCommand → String
unfolding cat
full_debug_command c = elim c.host [
  | none ↦ c.command
  | some pid ↦ cat ("nsenter --target " ∷ show_ℕ pid ∷ " --net --pid --all " ∷ c.command ∷ [])
]

-- `output` is the standard output of a command followed by its standard error.
abbrev pub debug_output : (String → String) → DebugCommand → DebugOutput
debug_output output c = record {
  tag = c.tag;
  command = c.command;
  output = output (full_debug_command c);
}

unfoldable pub run_debug_commands :
    (String → String) → Option (List DebugCommand) → Option (List DebugOutput)
unfolding full_debug_command
run_debug_commands output none = none
run_debug_commands output (some commands) = some (map (debug_output output) commands)

-- `log` at a time, with the table as it is then.
unfoldable pub log : ℤ → (String → String) → ActiveFaults → FaultLogger → FaultLogger
unfolding get_active_faults run_debug_commands
log now output table self = record self {
  logged_faults =
      self.logged_faults
      ++ (record {
        time_ms = now;
        time_since_start_ms = now -ℤ self.start_time_ms;
        active_faults = get_active_faults table;
        commands = run_debug_commands output self.commands;
      }
          ∷ []);
}

-- The start of `go`.
unfoldable pub begin_logging : ℤ → FaultLogger → FaultLogger
begin_logging now self = record self { start_time_ms = now; active = true }

unfoldable pub stop_logging : FaultLogger → FaultLogger
stop_logging self = record self { active = false }

-- What a logger meets at the head of its loop: the time, the outputs and the table of that moment,
-- and whether it has been stopped before.
pub record Tick : Type 0 where
  pub now : ℤ
  pub output : String → String
  pub table : ActiveFaults
  pub stopped : Bool

abbrev pub stopped_before : Bool → FaultLogger → FaultLogger
stopped_before true self = stop_logging self
stopped_before false self = self

-- The loop of `go`, up to the first moment at which it has been stopped.
unfoldable pub logging : List Tick → FaultLogger → FaultLogger
unfolding log stop_logging
logging [] self = self
logging (t ∷ ticks) self =
    let noted = logging ticks (log t.now t.output t.table self) in
    if (stopped_before t.stopped self).active then noted else stopped_before t.stopped self
