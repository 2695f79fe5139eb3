-- ===== src/Injectors/Node/Commands.antt =====
-- The scripts of a node fault between a start and an end command: each leaves its tag absent.
use faultynet.Shared.{
  ℕ, zero, suc, ◌≡◌, refl, true, false, Bool, ok, err, ℤ, String, min_ℤ, ◌+ℤ◌, value_error, show_ℤ,
}
use faultynet.Values.{Floats, Value, null, int, float, text, or_raise}
use faultynet.Injectors.Script.{Script, sleep, ◌>>=◌}
use faultynet.Injectors.Nodes.{number}
use faultynet.Injectors.Nodes.Rounds.{round-IsTidy, then-IsTidy, number-float, number-int}
use faultynet.Injectors.Node.{
  NodeInjector, Host, stress_command, execute_command_for_node, round, stress_of, degrade_custom,
  degrade_stress,
}
use faultynet.Injectors.Traces.{IsTidy, IsTidy-bind, IsTidy-lift, IsTidy-sleep}

-- A value that `execute_command_for_node` takes for a command, or for none.
unfoldable pub is_command : {F : Floats} → Value F → Bool
is_command null = true
is_command (text s) = true
is_command _ = false

pub is_command-null : (F : Floats) → is_command {F = F} null ≡ true
unfolding is_command
is_command-null F = refl

module _ {F : Floats} (self : NodeInjector F) where
  -- A start, a wait that is a number, and an end that is a command.
  pub activation-IsTidy :
      (start end v : Value F) (time : F.Float)
      → is_command end ≡ true
      → number v ≡ ok time
      → IsTidy self.tag (
          execute_command_for_node self start true >>= λ _.
          sleep v >>= λ _. execute_command_for_node self end false)
  unfolding execute_command_for_node is_command
  activation-IsTidy null null v time c h = round-IsTidy self.tag _ _ _ _ v time h
  activation-IsTidy null (text e) v time c h = round-IsTidy self.tag _ _ _ _ v time h
  activation-IsTidy (text s) null v time c h = round-IsTidy self.tag _ _ _ _ v time h
  activation-IsTidy (text s) (text e) v time c h = round-IsTidy self.tag _ _ _ _ v time h
  activation-IsTidy null (int n) v time c h = absurd cc
  activation-IsTidy null (float n) v time c h = absurd cc
  activation-IsTidy (text s) (int n) v time c h = absurd cc
  activation-IsTidy (text s) (float n) v time c h = absurd cc
  activation-IsTidy (int n) end v time c h = IsTidy-lift self.tag _
  activation-IsTidy (float n) end v time c h = IsTidy-lift self.tag _

  -- The same, and what comes then.
  activation_then-IsTidy :
      (start end v : Value F) (s : Script F (Unit {0})) (time : F.Float)
      → is_command end ≡ true
      → number v ≡ ok time
      → IsTidy self.tag s
      → IsTidy self.tag (
          execute_command_for_node self start true >>= λ _.
          sleep v >>= λ _. execute_command_for_node self end false >>= λ _. s)
  unfolding execute_command_for_node is_command
  activation_then-IsTidy null null v s time c h tidy = then-IsTidy self.tag _ _ _ _ v s time h tidy
  activation_then-IsTidy null (text e) v s time c h tidy =
      then-IsTidy self.tag _ _ _ _ v s time h tidy
  activation_then-IsTidy (text t) null v s time c h tidy =
      then-IsTidy self.tag _ _ _ _ v s time h tidy
  activation_then-IsTidy (text t) (text e) v s time c h tidy =
      then-IsTidy self.tag _ _ _ _ v s time h tidy
  activation_then-IsTidy null (int n) v s time c h tidy = absurd cc
  activation_then-IsTidy null (float n) v s time c h tidy = absurd cc
  activation_then-IsTidy (text t) (int n) v s time c h tidy = absurd cc
  activation_then-IsTidy (text t) (float n) v s time c h tidy = absurd cc
  activation_then-IsTidy (int n) end v s time c h tidy = IsTidy-lift self.tag _
  activation_then-IsTidy (float n) end v s time c h tidy = IsTidy-lift self.tag _

  round-IsTidy_of :
      (start end v pause : Value F) (time : F.Float)
      → is_command end ≡ true
      → number v ≡ ok time
      → IsTidy self.tag (round self start end v pause)
  unfolding round
  round-IsTidy_of start end v pause time c h =
      activation_then-IsTidy start end v (sleep pause) time c h (IsTidy-sleep self.tag pause)

  module _ (host : Host F) where
    pub degrade_stress-IsTidy :
        (n : ℕ) (intensity step_size end : ℤ) (step_length : F.Float)
        → IsTidy self.tag (degrade_stress host self n intensity step_size end step_length)
    unfolding degrade_stress
    degrade_stress-IsTidy zero intensity step_size end step_length = IsTidy-lift self.tag _
    degrade_stress-IsTidy (suc n) intensity step_size end step_length =
        IsTidy-bind self.tag _ _ (IsTidy-lift self.tag (stress_of host self (F.of_int intensity)))
          λ load.
            IsTidy-bind self.tag _ _
              (IsTidy-lift self.tag (or_raise (F.trunc step_length) (err value_error)))
              λ seconds.
                activation_then-IsTidy (text (stress_command host self load (show_ℤ seconds))) null
                  (int seconds) _ (F.of_int seconds) (is_command-null F) (number-int F seconds)
                  (degrade_stress-IsTidy n (min_ℤ (intensity +ℤ step_size) end) step_size end
                    step_length)

    pub degrade_custom-IsTidy :
        (n : ℕ) (base : String) (last : Value F) (intensity step_size end : ℤ)
        (step_length : F.Float)
        → is_command last ≡ true
        → IsTidy self.tag (degrade_custom host self n base last intensity step_size end step_length)
    unfolding degrade_custom
    degrade_custom-IsTidy zero base last intensity step_size end step_length c =
        IsTidy-lift self.tag _
    degrade_custom-IsTidy (suc n) base last intensity step_size end step_length c =
        IsTidy-bind self.tag _ _ (IsTidy-lift self.tag (host.format base intensity)) λ command.
          activation_then-IsTidy (text command) last (float step_length) _ step_length c
            (number-float F step_length)
            (degrade_custom-IsTidy n base last (min_ℤ (intensity +ℤ step_size) end) step_size end
              step_length c)

    pub stress_round-IsTidy :
        (start pause : Value F) (n : ℤ) → IsTidy self.tag (round self start null (int n) pause)
    stress_round-IsTidy start pause n =
        round-IsTidy_of start null (int n) pause (F.of_int n) (is_command-null F) (number-int F n)

    pub float_round-IsTidy :
        (start end pause : Value F) (x : F.Float)
        → is_command end ≡ true
        → IsTidy self.tag (round self start end (float x) pause)
    float_round-IsTidy start end pause x c =
        round-IsTidy_of start end (float x) pause x c (number-float F x)
