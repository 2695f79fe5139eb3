-- ===== src/Injectors/Node.antt =====
-- `NodeInjector`: commands and load in the namespaces of a node.
pub mod Tidy
pub mod Commands
use faultynet.Shared.{
  [], ℕ, zero, suc, ltb, String, Bool, true, false, Option, none, some, List, ◌∷◌, Result, ok, err,
  type_error, value_error, attribute_error, ℤ, pos, pos_part, ◌+ℤ◌, min_ℤ, str_eq, cat, show_ℤ,
  if◌then◌else◌,
}
use faultynet.Shared
use faultynet.Values.{
  Floats, Value, null, int, float, text, or_raise, to_int, to_str, to_float, item, milliseconds,
}
use faultynet.Injectors.Script.{
  inject, eject, Script, ◌>>=◌, ◌>>◌, return, lift, emit, sleep, repeat,
}
use faultynet.Injectors.Args.{len_of}
use faultynet.Injectors.Nodes.{run_command, burst_of, rounds}

pub record NodeInjector (F : Floats) : Type 0 where
  pub target_process_pid : Option ℕ
  pub tag : String
  pub fault_type : String
  pub pre_injection_time : Value F
  pub injection_time : Value F
  pub post_injection_time : Value F
  pub fault_args : Option (List (Value F))
  pub fault_pattern : String
  pub fault_pattern_args : Option (List (Value F))

-- What the injector takes from outside: `str.format` with one number, and the share of a processor
-- that `cgget` reports for the node's control group, which is absent where the command fails.
pub record Host (F : Floats) : Type 0 where
  pub format : String → ℤ → Result String
  pub cgroup_size : Option F.Float

module _ {F : Floats} (self : NodeInjector F) where
  -- `execute_command_for_node`: a missing command is only logged.
  unfoldable pub execute_command_for_node : Value F → Bool → Script F (Unit {0})
  execute_command_for_node null true =
      emit (inject self.tag self.fault_type none "Dummy command, no action taken")
  execute_command_for_node null false = emit (eject self.tag none)
  execute_command_for_node (text command) enable =
      run_command " --net --pid --cgroup " self.tag self.fault_type self.target_process_pid command
        enable
  execute_command_for_node _ enable = lift (err type_error)

  -- A start, a wait and an end; then the wait until the next round.
  unfoldable pub round : Value F → Value F → Value F → Value F → Script F (Unit {0})
  unfolding execute_command_for_node sleep
  round start_command end_command duration pause = do
    execute_command_for_node start_command true
    sleep duration
    execute_command_for_node end_command false
    sleep pause

  -- The commands of a custom fault in the burst and degradation patterns.
  unfoldable pub custom_commands : Result (Value F × Value F)
  unfolding len_of item
  custom_commands =
      let both =
        Shared.◌>>=◌ (item self.fault_args 0)
          λ start. Shared.◌>>=◌ (item self.fault_args 1) λ end. ok (start, end) in
      let one : Result (Value F × Value F) =
        Shared.◌>>=◌ (item self.fault_args 0) λ start. ok (start, null) in
      let neither : Value F × Value F = (null, null) in
      Shared.◌>>=◌ (len_of self.fault_args)
        λ n. if ltb 1 n then both else if ltb 0 n then one else ok neither

module _ {F : Floats} (host : Host F) (self : NodeInjector F) where
  -- `int(percentage * cgroup_fraction)`; the fraction is None where it could not be read.
  unfoldable pub stress_of : F.Float → Result ℤ
  stress_of percentage = elim host.cgroup_size [
    | none ↦ err type_error
    | some fraction ↦ or_raise (F.trunc (F.mul percentage fraction)) (err value_error)
  ]

  abbrev pub stress_command : ℤ → String → String
  stress_command load time =
      cat ("stress-ng -l " ∷ show_ℤ load ∷ " -t " ∷ time ∷ " --cpu 1 --cpu-method decimal64&" ∷ [])

  unfoldable pub inject_burst : Script F (Unit {0})
  unfolding round custom_commands stress_of burst_of rounds repeat
  inject_burst = do
    burst ← lift (burst_of self.fault_pattern_args)
    burst_num ← lift (rounds self.injection_time burst.period)
    let custom : Script F (Unit {0}) = (do
      commands ← lift (custom_commands self)
      repeat (pos_part burst_num) (
          round self commands.0 commands.1 (float burst.duration)
            (float (F.sub burst.period burst.duration))))
    let stress : Script F (Unit {0}) = (do
      let longest =
          if F.lt (F.of_int (pos 1)) burst.duration then burst.duration else F.of_int (pos 1)
      burst_duration ← lift (or_raise (F.trunc longest) (err value_error))
      n ← lift (len_of self.fault_args)
      let given = Shared.◌>>=◌ (item self.fault_args 0) to_int
      percentage ← lift (if ltb 0 n then given else ok (pos 50))
      load ← lift (stress_of (F.of_int percentage))
      repeat (pos_part burst_num) (
          round self (text (stress_command load (show_ℤ burst_duration))) null (int burst_duration)
            (float (F.sub burst.period (F.of_int burst_duration)))))
    (if str_eq self.fault_type "custom"
        then custom
        else if str_eq self.fault_type "stress_cpu"
        then stress
        else return tt)

  -- The rounds that are left of a custom degradation.
  unfoldable pub degrade_custom : ℕ → String → Value F → ℤ → ℤ → ℤ → F.Float → Script F (Unit {0})
  unfolding execute_command_for_node sleep
  degrade_custom zero start_base end_command intensity step_size end step_length = return tt
  degrade_custom (suc n) start_base end_command intensity step_size end step_length = do
    start_command ← lift (host.format start_base intensity)
    execute_command_for_node self (text start_command) true
    sleep (float step_length)
    execute_command_for_node self end_command false
    degrade_custom n start_base end_command (min_ℤ (intensity +ℤ step_size) end) step_size end
        step_length

  -- The rounds that are left of a degradation by load.
  unfoldable pub degrade_stress : ℕ → ℤ → ℤ → ℤ → F.Float → Script F (Unit {0})
  unfolding execute_command_for_node sleep stress_of
  degrade_stress zero intensity step_size end step_length = return tt
  degrade_stress (suc n) intensity step_size end step_length = do
    load ← lift (stress_of (F.of_int intensity))
    whole_seconds ← lift (or_raise (F.trunc step_length) (err value_error))
    execute_command_for_node self (text (stress_command load (show_ℤ whole_seconds))) true
    sleep (int whole_seconds)
    execute_command_for_node self null false
    degrade_stress n (min_ℤ (intensity +ℤ step_size) end) step_size end step_length

  -- `.count` and `.format` of a start command that is no text.
  abbrev need_format : Value F → Result String
  need_format (text s) = ok s
  need_format _ = err attribute_error

  unfoldable pub inject_degradation : Script F (Unit {0})
  unfolding degrade_custom degrade_stress custom_commands len_of item to_int to_str milliseconds
      rounds
  inject_degradation = do
    n ← lift (len_of self.fault_pattern_args)
    let int_item : ℕ → Result ℤ = λ i. Shared.◌>>=◌ (item self.fault_pattern_args i) to_int
    let start_item : Result (Value F) =
        Shared.◌>>=◌ (item self.fault_pattern_args 2) λ v. ok (text (to_str v))
    let given_end = int_item 3
    end ← lift (if ltb 3 n then given_end else ok (pos 100))
    start_degradation ← lift (if ltb 2 n then start_item else ok (int (pos 0)))
    let given_length = int_item 1
    length ← lift (if ltb 1 n then given_length else ok (pos 1000))
    step_length ← lift (milliseconds F (F.of_int length))
    let given_size = int_item 0
    step_size ← lift (if ltb 0 n then given_size else ok (pos 5))
    number_of_steps ← lift (rounds self.injection_time step_length)
    intensity ← lift (to_int start_degradation)
    let custom : Script F (Unit {0}) = (do
      commands ← lift (custom_commands self)
      start_base ← lift (need_format commands.0)
      degrade_custom (pos_part number_of_steps) start_base commands.1 intensity step_size end
          step_length)
    let stress : Script F (Unit {0}) =
        degrade_stress (pos_part number_of_steps) intensity step_size end step_length
    (if str_eq self.fault_type "custom"
        then custom
        else if str_eq self.fault_type "stress_cpu"
        then stress
        else return tt)

  unfoldable pub inject_persistent : Script F (Unit {0})
  unfolding execute_command_for_node sleep len_of item to_float stress_of
  inject_persistent =
      let custom : Script F (Unit {0}) = (do
        n ← lift (len_of self.fault_args)
        start_command ← lift (item self.fault_args 0)
        let second = item self.fault_args 1
        end_command ← lift (if ltb n 2 then ok null else second)
        execute_command_for_node self start_command true
        sleep self.injection_time
        execute_command_for_node self end_command false) in
      let stress : Script F (Unit {0}) = (do
        lift (or_raise host.cgroup_size (err type_error))
        n ← lift (len_of self.fault_args)
        let given = Shared.◌>>=◌ (item self.fault_args 0) to_float
        percentage ← lift (if ltb n 1 then ok (F.of_int (pos 50)) else given)
        load ← lift (stress_of percentage)
        execute_command_for_node self (text (stress_command load (to_str self.injection_time))) true
        sleep self.injection_time
        execute_command_for_node self null false) in
      if str_eq self.fault_type "custom"
      then custom
      else if str_eq self.fault_type "stress_cpu"
      then stress
      else return tt

  unfoldable pub inject_by_pattern : Script F (Unit {0})
  inject_by_pattern =
      if str_eq self.fault_pattern "burst"
      then inject_burst
      else if str_eq self.fault_pattern "degradation"
      then inject_degradation
      else if str_eq self.fault_pattern "persistent"
      then inject_persistent
      else return tt

  unfoldable pub do_injection : Script F (Unit {0})
  do_injection = do sleep self.pre_injection_time; inject_by_pattern; sleep self.post_injection_time
