-- ===== src/Injectors/Nodes.antt =====
-- What `NodeInjector` and `MultiInjector` share: the commands that they run in a node's namespaces,
-- and the pattern arguments that both read.
pub mod Rounds
use faultynet.Shared.{
  ◌∷◌, [], ℕ, ltb, String, Bool, true, false, Option, some, List, Result, ok, err, type_error,
  ◌>>=◌, ℤ, pos, is_in, cat, replace, if◌then◌else◌,
}
use faultynet.Values.{Floats, Value, null, int, float, text, to_int, item, milliseconds, quotient}
use faultynet.Injectors.Script.{inject, eject, Script, emit}
use faultynet.Injectors.Args.{show_pid, len_of}

-- The command in the namespaces of the node: each `|` gives way to the text that enters them.
unfoldable pub full_command : String → Option ℕ → String → String
unfolding cat show_pid
full_command flags pid_of_node command =
    let pid = show_pid pid_of_node in
    let full = cat ("nsenter --target " ∷ pid ∷ flags ∷ command ∷ []) in
    if is_in "|" full
    then replace full "|" (cat ("nsenter --target " ∷ pid ∷ " --net --pid " ∷ []))
    else full

-- One run of `subprocess.run` and the entry of the logger.
abbrev pub run_command :
    {F : Floats} → String → String → String → Option ℕ → String → Bool → Script F (Unit {0})
run_command flags tag fault_type pid command true =
    emit (inject tag fault_type (some (full_command flags pid command)) command)
run_command flags tag fault_type pid command false =
    emit (eject tag (some (full_command flags pid command)))

pub record Burst (F : Floats) : Type 0 where
  pub duration : F.Float
  pub period : F.Float

module _ {F : Floats} where
  -- A time as an operand of a division.
  unfoldable pub number : Value F → Result F.Float
  number null = err type_error
  number (int n) = ok (F.of_int n)
  number (float x) = ok x
  number (text s) = err type_error

  -- Duration and period of the bursts, in seconds: 1 and 2 where the arguments are missing.
  unfoldable pub burst_of : Option (List (Value F)) → Result (Burst F)
  unfolding len_of item to_int milliseconds
  burst_of args =
      let given = item args 0 >>= to_int >>= λ d. milliseconds F (F.of_int d) >>= λ duration.
      item args 1 >>= to_int >>= λ p. milliseconds F (F.of_int p) >>= λ period.
      ok (record { duration = duration; period = period }) in
      len_of args >>= λ n.
      if ltb n 2
      then ok (record { duration = F.of_int (pos 1); period = F.of_int (pos 2) })
      else given

  -- `int(injection_time / period)`
  unfoldable pub rounds : Value F → F.Float → Result ℤ
  unfolding number quotient
  rounds time period = number time >>= λ t. quotient F t period
