-- ===== src/Injectors/Multi.antt =====
-- `MultiInjector`: the settings of several interfaces of a node at once, by `tcset`.
pub mod Tidy
use faultynet.Shared.{
  [], ℕ, String, Bool, true, false, Option, none, some, List, ◌∷◌, Result, ok, err, type_error,
  pos_part, str_eq, cat, if◌then◌else◌,
}
use faultynet.Shared
use faultynet.Values.{Floats, Value, float}
use faultynet.Injectors.Script.{Script, ◌>>=◌, ◌>>◌, return, lift, sleep, repeat}
use faultynet.Injectors.Nodes.{run_command, burst_of, rounds}

pub record MultiInjector (F : Floats) : Type 0 where
  pub target_process_pid : Option ℕ
  pub tag : String
  pub fault_pattern : String
  pub fault_pattern_args : Option (List (Value F))
  pub pre_injection_time : Value F
  pub injection_time : Value F
  pub post_injection_time : Value F
  pub inject_command : String
  pub eject_command : String

-- The `json` module: the keys of an object, or the error of a text that is none, and the text of an
-- object that resets the interfaces of a list.
pub record Json : Type 0 where
  pub keys : String → Result (List String)
  pub reset_text : List String → String

-- `build_start_command`: the commands that set and reset the interfaces.
unfoldable pub build_start_command : Json → Option String → Result (String × String)
unfolding cat
build_start_command json none = err type_error
build_start_command json (some config) = Shared.◌>>=◌ (json.keys config) λ interfaces. ok (
  cat ("echo '" ∷ config ∷ "' | tcset /dev/stdin --import-setting" ∷ []),
  cat ("echo '" ∷ json.reset_text interfaces ∷ "' | tcset /dev/stdin --import-setting" ∷ []),
)

module _ {F : Floats} (self : MultiInjector F) where
  unfoldable pub execute_command_for_node : String → Bool → Script F (Unit {0})
  execute_command_for_node command enable =
      run_command " --net --pid " self.tag "multi-fault" self.target_process_pid command enable

  unfoldable pub inject_burst : Script F (Unit {0})
  unfolding execute_command_for_node sleep burst_of rounds repeat
  inject_burst = do
    burst ← lift (burst_of self.fault_pattern_args)
    burst_num ← lift (rounds self.injection_time burst.period)
    repeat (pos_part burst_num) (do
      execute_command_for_node self.inject_command true
      sleep (float burst.duration)
      execute_command_for_node self.eject_command false
      sleep (float (F.sub burst.period burst.duration)))

  unfoldable pub inject_persistent : Script F (Unit {0})
  unfolding execute_command_for_node sleep
  inject_persistent = do
    execute_command_for_node self.inject_command true
    sleep self.injection_time
    execute_command_for_node self.eject_command false

  unfoldable pub do_injection : Script F (Unit {0})
  do_injection = do
    sleep self.pre_injection_time
    (if str_eq self.fault_pattern "burst"
        then inject_burst
        else if str_eq self.fault_pattern "persistent"
        then inject_persistent
        else return tt)
    sleep self.post_injection_time
