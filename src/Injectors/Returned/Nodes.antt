-- ===== src/Injectors/Returned/Nodes.antt =====
-- `NodeInjector` and `MultiInjector`: the runs that return have removed the fault.
use faultynet.Shared.{
  ℕ, zero, suc, String, refl, Bool, true, false, err, ℤ, All, eq_iff, arith, err-ne-ok, value_error,
  show_ℤ, min_ℤ, ◌+ℤ◌,
}
use faultynet.Values.{Floats, Value, null, int, float, text, or_raise}
use faultynet.Injectors.Script.{Script, ◌>>=◌, sleep}
use faultynet.Injectors.Traces.{IsOwn, IsTidy-sleep}
use faultynet.Injectors.Returned.{
  Leaves, Leaves-bind, Leaves-before, Leaves-lift, Leaves-sleep, leaving_rules,
}
use faultynet.Injectors.Node.{
  NodeInjector, Host, stress_of, stress_command, execute_command_for_node, round, inject_burst,
  degrade_custom, degrade_stress, inject_degradation, inject_persistent, inject_by_pattern,
  do_injection,
}

module _ {F : Floats} (self : NodeInjector F) where
  execute-IsOwn :
      (v : Value F) (enable : Bool)
      → All (IsOwn self.tag) (execute_command_for_node self v enable).events
  unfolding execute_command_for_node
  execute-IsOwn null true = (refl, tt)
  execute-IsOwn null false = (refl, tt)
  execute-IsOwn (text s) true = (refl, tt)
  execute-IsOwn (text s) false = (refl, tt)
  execute-IsOwn (int n) enable = tt
  execute-IsOwn (float x) enable = tt

  -- The end command, or the entry without one, removes the tag.
  execute-Leaves :
      (b : Bool) (v : Value F) → Leaves self.tag b (execute_command_for_node self v false)
  unfolding execute_command_for_node
  execute-Leaves b null = record {
    own = (refl, tt);
    cleared = λ a h. ground (arith, eq_iff self.tag self.tag);
  }
  execute-Leaves b (text s) = record {
    own = (refl, tt);
    cleared = λ a h. ground (arith, eq_iff self.tag self.tag);
  }
  execute-Leaves b (int n) = record { own = tt; cleared = λ a h. absurd (err-ne-ok h) }
  execute-Leaves b (float x) = record { own = tt; cleared = λ a h. absurd (err-ne-ok h) }

  -- The two commands with a wait between them, and what comes then.
  activation-Leaves :
      (start end v : Value F) (s : Script F (Unit {0}))
      → Leaves self.tag false s
      → Leaves self.tag false (
          execute_command_for_node self start true >>= λ _.
          sleep v >>= λ _. execute_command_for_node self end false >>= λ _. s)
  activation-Leaves start end v s leaves =
      Leaves-before self.tag false _ _ (execute-IsOwn start true) λ b1 _.
        Leaves-before self.tag b1 (sleep v) _ (IsTidy-sleep self.tag v).own
          λ b2 _. Leaves-bind self.tag b2 _ _ (execute-Leaves b2 end) λ _. leaves

  held-Leaves :
      (start end v : Value F)
      → Leaves self.tag false (
          execute_command_for_node self start true >>= λ _.
          sleep v >>= λ _. execute_command_for_node self end false)
  held-Leaves start end v = Leaves-before self.tag false _ _ (execute-IsOwn start true) λ b1 _.
      Leaves-before self.tag b1 (sleep v) _ (IsTidy-sleep self.tag v).own
        λ b2 _. execute-Leaves b2 end

  round-Leaves :
      (start end v pause : Value F) → Leaves self.tag false (round self start end v pause)
  unfolding round
  round-Leaves start end v pause =
      activation-Leaves start end v (sleep pause) (Leaves-sleep self.tag pause)

  module _ (host : Host F) where
    custom-Leaves :
        (n : ℕ) (base : String) (last : Value F) (intensity step_size end : ℤ)
        (step_length : F.Float)
        → Leaves self.tag false
            (degrade_custom host self n base last intensity step_size end step_length)
    unfolding degrade_custom
    custom-Leaves zero base last intensity step_size end step_length = Leaves-lift self.tag _
    custom-Leaves (suc n) base last intensity step_size end step_length =
        Leaves-bind self.tag false _ _ (Leaves-lift self.tag (host.format base intensity))
          λ command. activation-Leaves (text command) last (float step_length) _ (
            custom-Leaves n base last (min_ℤ (intensity +ℤ step_size) end) step_size end
              step_length)

    stress-Leaves :
        (n : ℕ) (intensity step_size end : ℤ) (step_length : F.Float)
        → Leaves self.tag false (degrade_stress host self n intensity step_size end step_length)
    unfolding degrade_stress
    stress-Leaves zero intensity step_size end step_length = Leaves-lift self.tag _
    stress-Leaves (suc n) intensity step_size end step_length =
        Leaves-bind self.tag false _ _
          (Leaves-lift self.tag (stress_of host self (F.of_int intensity)))
          λ load.
            Leaves-bind self.tag false _ _
              (Leaves-lift self.tag (or_raise (F.trunc step_length) (err value_error)))
              λ seconds.
                activation-Leaves (text (stress_command host self load (show_ℤ seconds))) null
                  (int seconds) _
                  (stress-Leaves n (min_ℤ (intensity +ℤ step_size) end) step_size end step_length)

    burst-Leaves : Leaves self.tag false (inject_burst host self)
    unfolding inject_burst
    burst-Leaves = search (round-Leaves, leaving_rules) depth 20

    degradation-Leaves : Leaves self.tag false (inject_degradation host self)
    unfolding inject_degradation
    degradation-Leaves = search (custom-Leaves, stress-Leaves, leaving_rules) depth 40

    persistent-Leaves : Leaves self.tag false (inject_persistent host self)
    unfolding inject_persistent
    persistent-Leaves = search (held-Leaves, leaving_rules) depth 20

    pub node-Leaves : Leaves self.tag false (do_injection host self)
    unfolding do_injection inject_by_pattern
    node-Leaves =
        search (burst-Leaves, degradation-Leaves, persistent-Leaves, leaving_rules) depth 20
