-- ===== src/Injectors/Node/Tidy.antt =====
-- What `NodeInjector.go` leaves behind in the table of active faults.
use faultynet.Shared
use mathlib.Core.Path.{subst}
use faultynet.Shared.{
  ℕ, ◌≡◌, true, false, List, ok, err-ne-ok, All, ltb, if◌then◌else◌, Bool-cases, Result-cases, inl,
  inr, ok-injective,
}
use faultynet.Values.{Floats, Value, null, item}
use faultynet.Injectors.Script.{Event, Script, World, Shell, perform_all, sleep, ◌>>=◌, lift}
use faultynet.Injectors.Args.{len_of}
use faultynet.Injectors.Nodes.{number}
use faultynet.Injectors.Node.{
  NodeInjector, Host, execute_command_for_node, custom_commands, inject_burst, inject_degradation,
  inject_persistent, inject_by_pattern, do_injection,
}
use faultynet.Injectors.Traces.{
  Merge, IsOther, is_marked, IsTidy, IsTidy-bind, IsTidy-bind_of, IsTidy-lift, IsTidy-if,
  IsTidy-sleep, IsTidy-cleans, tidy_rules,
}
use faultynet.Injectors.Node.Commands.{
  is_command, is_command-null, activation-IsTidy, degrade_stress-IsTidy, degrade_custom-IsTidy,
  stress_round-IsTidy, float_round-IsTidy,
}

module _ {F : Floats} (self : NodeInjector F) where
  module _ (host : Host F) where
    -- The end command of a custom fault is a text, or is not given.
    module _ (ends : (v : Value F) → item self.fault_args 1 ≡ ok v → is_command v ≡ true) where
      both_end :
          (commands : Value F × Value F)
          → Shared.◌>>=◌
              (item self.fault_args 0)
              (λ start. Shared.◌>>=◌ (item self.fault_args 1) λ end. ok (start, end))
            ≡ ok commands
          → is_command commands.1 ≡ true
      both_end commands e = elim (Result-cases (item self.fault_args 0)) [
        | inl (start, q) ↦ elim (Result-cases (item self.fault_args 1)) [
          | inl (end, q') ↦
              subst (λ c. is_command c.1 ≡ true) (ok-injective (rw (q, q') at e)) (ends end q')
          | inr (x, q') ↦ absurd (err-ne-ok (rw (q, q') at e))
        ]
        | inr (x, q) ↦ absurd (err-ne-ok (rw q at e))
      ]

      one_end :
          (commands : Value F × Value F)
          → Shared.◌>>=◌ (item self.fault_args 0) (λ start. ok (start, null)) ≡ ok commands
          → is_command commands.1 ≡ true
      one_end commands e = elim (Result-cases (item self.fault_args 0)) [
        | inl (start, q) ↦
            subst (λ c. is_command c.1 ≡ true) (ok-injective (rw q at e)) (is_command-null F)
        | inr (x, q) ↦ absurd (err-ne-ok (rw q at e))
      ]

      chosen_end :
          (n : ℕ) (commands : Value F × Value F)
          → (if ltb 1 n
              then Shared.◌>>=◌
                  (item self.fault_args 0)
                  (λ start. Shared.◌>>=◌ (item self.fault_args 1) λ end. ok (start, end))
              else if ltb 0 n
              then Shared.◌>>=◌ (item self.fault_args 0) (λ start. ok (start, null))
              else ok (null, null))
            ≡ ok commands
          → is_command commands.1 ≡ true
      chosen_end n commands e = elim (Bool-cases (ltb 1 n)) [
        | inl two ↦ both_end commands (rw two at e)
        | inr fewer ↦ elim (Bool-cases (ltb 0 n)) [
          | inl one ↦ one_end commands (rw (fewer, one) at e)
          | inr zero_args ↦
              subst (λ c. is_command c.1 ≡ true) (ok-injective (rw (fewer, zero_args) at e))
                (is_command-null F)
        ]
      ]

      commands_end :
          (commands : Value F × Value F)
          → custom_commands self ≡ ok commands
          → is_command commands.1 ≡ true
      unfolding custom_commands
      commands_end commands e = elim (Result-cases (len_of self.fault_args)) [
        | inl (n, q) ↦ chosen_end n commands (rw q at e)
        | inr (x, q) ↦ absurd (err-ne-ok (rw q at e))
      ]

      end_given :
          (n : ℕ) (v : Value F)
          → (if ltb n 2 then ok null else item self.fault_args 1) ≡ ok v
          → is_command v ≡ true
      end_given n v e = elim (Bool-cases (ltb n 2)) [
        | inl few ↦
            subst (λ x. is_command x ≡ true) (ok-injective (rw few at e)) (is_command-null F)
        | inr more ↦ ends v (rw more at e)
      ]

      -- What uses the commands of a custom fault may rely on the end command.
      commands_then-IsTidy :
          (f : Value F × Value F → Script F (Unit {0}))
          → ((commands : Value F × Value F)
              → is_command commands.1 ≡ true
              → IsTidy self.tag (f commands))
          → IsTidy self.tag (lift (custom_commands self) >>= f)
      commands_then-IsTidy f tidy =
          IsTidy-bind_of self.tag _ f (IsTidy-lift self.tag (custom_commands self))
            λ commands e. tidy commands (commands_end commands e)

      end_then-IsTidy :
          (n : ℕ) (f : Value F → Script F (Unit {0}))
          → ((v : Value F) → is_command v ≡ true → IsTidy self.tag (f v))
          → IsTidy self.tag (lift (if ltb n 2 then ok null else item self.fault_args 1) >>= f)
      end_then-IsTidy n f tidy =
          IsTidy-bind_of self.tag _ f
            (IsTidy-lift self.tag (if ltb n 2 then ok null else item self.fault_args 1))
            λ v e. tidy v (end_given n v e)

      node_burst-IsTidy : IsTidy self.tag (inject_burst host self)
      unfolding inject_burst
      node_burst-IsTidy =
          search (commands_then-IsTidy, float_round-IsTidy, stress_round-IsTidy, tidy_rules) depth
            20

      node_degradation-IsTidy : IsTidy self.tag (inject_degradation host self)
      unfolding inject_degradation
      node_degradation-IsTidy =
          search (commands_then-IsTidy, degrade_custom-IsTidy, degrade_stress-IsTidy, tidy_rules)
            depth 40

      node_persistent-IsTidy :
          (time : F.Float)
          → number self.injection_time ≡ ok time
          → IsTidy self.tag (inject_persistent host self)
      unfolding inject_persistent
      node_persistent-IsTidy time h =
          let held : (start end : Value F)
              → is_command end ≡ true
              → IsTidy self.tag (
                  execute_command_for_node self start true >>= λ _.
                  sleep self.injection_time >>= λ _. execute_command_for_node self end false) =
            λ start end c. activation-IsTidy self start end self.injection_time time c h in
          let stress : (start : Value F)
              → IsTidy self.tag (
                  execute_command_for_node self start true >>= λ _.
                  sleep self.injection_time >>= λ _. execute_command_for_node self null false) =
            λ start. held start null (is_command-null F) in
          search (held, stress, end_then-IsTidy, tidy_rules) depth 20

      node_pattern-IsTidy :
          (time : F.Float)
          → number self.injection_time ≡ ok time
          → IsTidy self.tag (inject_by_pattern host self)
      unfolding inject_by_pattern
      node_pattern-IsTidy time h = IsTidy-if self.tag _ _ _ node_burst-IsTidy (
          IsTidy-if self.tag _ _ _ node_degradation-IsTidy (
            IsTidy-if self.tag _ _ _ (node_persistent-IsTidy time h)
              (IsTidy-lift self.tag (ok tt))))

      node_injection-IsTidy :
          (time : F.Float)
          → number self.injection_time ≡ ok time
          → IsTidy self.tag (do_injection host self)
      unfolding do_injection
      node_injection-IsTidy time h =
          IsTidy-bind self.tag (sleep self.pre_injection_time) _ (IsTidy-sleep self.tag _) λ _.
            IsTidy-bind self.tag (inject_by_pattern host self) _ (node_pattern-IsTidy time h)
              λ _. IsTidy-sleep self.tag self.post_injection_time

    -- Concurrently with any other injectors, all of other tags, a run of a node fault leaves its tag
    -- absent from the table of active faults if it was absent before, also where it raises, provided
    -- that the injection time is a number and that an end command, where one is given, is a text or
    -- null.
    pub node_injection_cleans :
        (shell : Shell) (w : World) (time : F.Float) (others trace : List (Event F))
        → ((v : Value F) → item self.fault_args 1 ≡ ok v → is_command v ≡ true)
        → number self.injection_time ≡ ok time
        → Merge (do_injection host self).events others trace
        → All (IsOther self.tag) others
        → is_marked self.tag w.active ≡ false
        → is_marked self.tag (perform_all shell w trace).active ≡ false
    node_injection_cleans shell w time others trace ends h m o absent =
        IsTidy-cleans self.tag shell w (node_injection-IsTidy ends time h) m o absent
