-- ===== src/Injectors/Link.antt =====
-- `LinkInjector`: the faults of one interface, and their patterns over time.
pub mod Degradation
pub mod Cleanup
pub mod Steps
pub mod Leftover
use faultynet.Shared.{
  ℕ, zero, suc, String, Bool, true, false, Option, none, some, List, [], ◌∷◌, err, type_error, ℤ,
  pos_part, is_in, if◌then◌else◌,
}
use faultynet.Values.{Floats, Value, float, text, to_float, item, milliseconds, quotient}
use faultynet.Injectors.Script.{
  inject, eject, Script, ◌>>=◌, ◌>>◌, return, lift, emit, sleep, repeat,
}
use faultynet.Injectors.Args.{len_of, or_null}
use faultynet.Injectors.Tc.{make_nics_injection_command}
use faultynet.Injectors.Filtered.{Ports, make_filtered_nics_injection_command}
use faultynet.Injectors.Link.Degradation.{degradation_of, next_degradation}

pub record LinkInjector (F : Floats) : Type 0 where
  pub target_interface : Option String
  pub namespace_pid : Option ℕ
  pub tag : String
  pub fault_target_protocol : String
  pub fault_target_dst_ports : Ports F
  pub fault_target_src_ports : Ports F
  pub fault_type : String
  pub fault_pattern : String
  pub fault_pattern_args : Option (List (Value F))
  pub fault_args : Option (List (Value F))
  pub pre_injection_time : Value F
  pub injection_time : Value F
  pub post_injection_time : Value F

module _ {F : Floats} where
  -- `call(command, shell=True)` and the entry of the logger; `call(None)` is a TypeError.
  unfoldable pub execute : LinkInjector F → Bool → Option String → Script F (Unit {0})
  execute self enable none = lift (err type_error)
  execute self true (some command) = emit (inject self.tag self.fault_type (some command) command)
  execute self false (some command) = emit (eject self.tag (some command))

  unfoldable pub execute_all : LinkInjector F → Bool → List String → Script F (Unit {0})
  unfolding execute
  execute_all self enable [] = return tt
  execute_all self enable (command ∷ commands) = do
    execute self enable (some command)
    execute_all self enable commands

module _ {F : Floats} (tc_path : String) (self : LinkInjector F) where
  -- `inject_nics` for a target of any protocol.
  unfoldable pub inject_everything : String → Option (List (Value F)) → Bool → Script F (Unit {0})
  unfolding execute or_null
  inject_everything fault_pattern fault_pattern_args enable = do
    command ← lift (
        make_nics_injection_command tc_path self.namespace_pid self.target_interface self.fault_type
          fault_pattern (or_null fault_pattern_args) self.fault_args
          (if enable then "add" else "del"))
    execute self enable command

  -- `inject_nics` for one protocol.
  unfoldable pub inject_filtered : String → Option (List (Value F)) → Bool → Script F (Unit {0})
  unfolding execute_all
  inject_filtered fault_pattern fault_pattern_args enable = do
    cmd_list ← lift (
        make_filtered_nics_injection_command tc_path self.namespace_pid fault_pattern
          fault_pattern_args self.fault_type self.fault_args self.target_interface
          self.fault_target_protocol self.fault_target_dst_ports self.fault_target_src_ports enable)
    execute_all self enable cmd_list

  unfoldable pub inject_nics : String → Option (List (Value F)) → Bool → Script F (Unit {0})
  unfolding inject_everything inject_filtered
  inject_nics fault_pattern fault_pattern_args enable =
      if is_in "any" self.fault_target_protocol
      then inject_everything fault_pattern fault_pattern_args enable
      else inject_filtered fault_pattern fault_pattern_args enable

  -- One activation: inject, wait, eject.
  unfoldable pub activation : String → Option (List (Value F)) → F.Float → Script F (Unit {0})
  unfolding inject_nics sleep
  activation fault_pattern fault_pattern_args duration = do
    inject_nics fault_pattern fault_pattern_args true
    sleep (float duration)
    inject_nics fault_pattern fault_pattern_args false

  unfoldable pub inject_burst_pattern : Script F (Unit {0})
  unfolding activation sleep repeat len_of item to_float milliseconds quotient
  inject_burst_pattern = do
    lift (len_of self.fault_pattern_args)
    burst ← lift (item self.fault_pattern_args 0)
    burst_number ← lift (to_float burst)
    burst_duration ← lift (milliseconds F burst_number)
    period ← lift (item self.fault_pattern_args 1)
    period_number ← lift (to_float period)
    burst_period ← lift (milliseconds F period_number)
    time ← lift (to_float self.injection_time)
    burst_num ← lift (quotient F time burst_period)
    repeat (pos_part burst_num) (do
      activation "persistent" (some (text "" ∷ [])) burst_duration
      sleep (float (F.sub burst_period burst_duration)))

  -- The rounds that are left, from the value of this round.
  unfoldable pub degrade : ℕ → Value F → String → ℤ → F.Float → Script F (Unit {0})
  unfolding activation next_degradation
  degrade zero value step_size end step_length = return tt
  degrade (suc rounds) value step_size end step_length = do
    activation "random" (some (value ∷ [])) step_length
    next ← lift (next_degradation value step_size end)
    degrade rounds next step_size end step_length

  unfoldable pub inject_degradation_pattern : Script F (Unit {0})
  unfolding degrade degradation_of to_float quotient
  inject_degradation_pattern = do
    d ← lift (degradation_of self.fault_pattern_args)
    time ← lift (to_float self.injection_time)
    number_of_steps ← lift (quotient F time d.step_length)
    degrade (pos_part number_of_steps) d.start d.step_size d.end d.step_length

  unfoldable pub inject_persistent_pattern : Script F (Unit {0})
  unfolding inject_nics to_float sleep
  inject_persistent_pattern = do
    inject_nics self.fault_pattern self.fault_pattern_args true
    time ← lift (to_float self.injection_time)
    sleep (float time)
    inject_nics self.fault_pattern self.fault_pattern_args false

  -- The pattern is chosen by the words that its name contains.
  unfoldable pub inject_by_pattern : Script F (Unit {0})
  inject_by_pattern =
      if is_in "burst" self.fault_pattern
      then inject_burst_pattern
      else if is_in "degradation" self.fault_pattern
      then inject_degradation_pattern
      else inject_persistent_pattern

  unfoldable pub do_injection : Script F (Unit {0})
  do_injection = do
    before ← lift (to_float self.pre_injection_time)
    sleep (float before)
    inject_by_pattern
    after ← lift (to_float self.post_injection_time)
    sleep (float after)
