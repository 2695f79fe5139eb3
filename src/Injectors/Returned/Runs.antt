-- ===== src/Injectors/Returned/Runs.antt =====
-- `LinkInjector` and `MultiInjector`: the runs that return have removed the fault.
use faultynet.Shared.{
  String, ◌≡◌, refl, Bool, true, false, ok, err, All, err-ne-ok, eq_iff, arith, pos_part, Result,
}
use faultynet.Values.{Floats, Value, float, to_float}
use faultynet.Injectors.Script.{Script, ◌>>=◌, lift, sleep}
use faultynet.Injectors.Traces.{IsOwn, IsTidy-sleep}
use faultynet.Injectors.Returned.{
  Leaves, IsTidy-Leaves, Leaves-bind, Leaves-before, Leaves-lift, Leaves-sleep, Leaves-if,
  Leaves-repeat, leaving_rules,
}
use faultynet.Injectors.Nodes.{burst_of, rounds}
use faultynet.Injectors.Multi.{
  MultiInjector, execute_command_for_node, inject_burst, inject_persistent, do_injection,
}
use faultynet.Injectors.Link
use faultynet.Injectors.Link.{
  LinkInjector, inject_nics, inject_burst_pattern, inject_degradation_pattern,
  inject_persistent_pattern, inject_by_pattern,
}
use faultynet.Injectors.Link.Cleanup.{
  inject_nics-IsBracket, burst-IsTidy, degradation-IsTidy, persistent-IsTidy,
}

module _ {F : Floats} (self : MultiInjector F) where
  on-IsOwn : All (IsOwn self.tag) (execute_command_for_node self self.inject_command true).events
  unfolding execute_command_for_node
  on-IsOwn = (refl, tt)

  off-Leaves :
      (b : Bool) → Leaves self.tag b (execute_command_for_node self self.eject_command false)
  unfolding execute_command_for_node
  off-Leaves b = record {
    own = (refl, tt);
    cleared = λ a h. ground (arith, eq_iff self.tag self.tag);
  }

  -- The two commands with a wait between them.
  held-Leaves :
      (v : Value F)
      → Leaves self.tag false (
          execute_command_for_node self self.inject_command true >>= λ _.
          sleep v >>= λ _. execute_command_for_node self self.eject_command false)
  held-Leaves v = Leaves-before self.tag false _ _ on-IsOwn λ b1 _.
      Leaves-before self.tag b1 (sleep v) _ (IsTidy-sleep self.tag v).own λ b2 _. off-Leaves b2

  -- The same, and what comes then.
  activation-Leaves :
      (v : Value F) (s : Script F (Unit {0}))
      → Leaves self.tag false s
      → Leaves self.tag false (
          execute_command_for_node self self.inject_command true >>= λ _.
          sleep v >>= λ _. execute_command_for_node self self.eject_command false >>= λ _. s)
  activation-Leaves v s leaves = Leaves-before self.tag false _ _ on-IsOwn λ b1 _.
      Leaves-before self.tag b1 (sleep v) _ (IsTidy-sleep self.tag v).own
        λ b2 _. Leaves-bind self.tag b2 _ _ (off-Leaves b2) λ _. leaves

  burst-Leaves : Leaves self.tag false (inject_burst self)
  unfolding inject_burst
  burst-Leaves =
      Leaves-bind self.tag false _ _ (Leaves-lift self.tag (burst_of self.fault_pattern_args))
        λ burst.
          Leaves-bind self.tag false _ _
            (Leaves-lift self.tag (rounds self.injection_time burst.period))
            λ n. Leaves-repeat self.tag (pos_part n) _ (
              activation-Leaves (float burst.duration)
                (sleep (float (F.sub burst.period burst.duration)))
                (Leaves-sleep self.tag (float (F.sub burst.period burst.duration))))

  held_time-Leaves : Leaves self.tag false (inject_persistent self)
  unfolding inject_persistent
  held_time-Leaves = held-Leaves self.injection_time

  -- What `MultiInjector.go` leaves when it returns.
  pub multi-Leaves : Leaves self.tag false (do_injection self)
  unfolding do_injection
  multi-Leaves = search (burst-Leaves, held_time-Leaves, leaving_rules) depth 20

module _ {F : Floats} (tc_path : String) (self : LinkInjector F) where
  -- A run that cannot read its injection time does not return.
  unread-Leaves :
      (es : Script F (Unit {0})) (f : F.Float → Script F (Unit {0})) (r : Result F.Float)
      → All (IsOwn self.tag) es.events
      → ((x : F.Float) → r ≡ ok x → Leaves self.tag false (es >>= λ _. lift r >>= f))
      → Leaves self.tag false (es >>= λ _. lift r >>= f)
  unread-Leaves es f (ok x) own leaves = leaves x refl
  unread-Leaves es f (err e) own leaves =
      Leaves-before self.tag false es _ own
        λ b _. record { own = tt; cleared = λ a h. absurd (err-ne-ok h) }

  persistent-Leaves : Leaves self.tag false (inject_persistent_pattern tc_path self)
  unfolding inject_persistent_pattern
  persistent-Leaves =
      unread-Leaves _ _ (to_float self.injection_time)
        (inject_nics-IsBracket tc_path self self.fault_pattern self.fault_pattern_args).own
        λ x h.
          IsTidy-Leaves self.tag
            (unfold inject_persistent_pattern in persistent-IsTidy tc_path self x h)

  pattern-Leaves : Leaves self.tag false (inject_by_pattern tc_path self)
  unfolding inject_by_pattern
  pattern-Leaves = Leaves-if self.tag _ _ _ (IsTidy-Leaves self.tag (burst-IsTidy tc_path self)) (
      Leaves-if self.tag _ _ _ (IsTidy-Leaves self.tag (degradation-IsTidy tc_path self))
        persistent-Leaves)

  -- What `LinkInjector.go` leaves when it returns.
  pub link-Leaves : Leaves self.tag false (Link.do_injection tc_path self)
  unfolding Link.do_injection
  link-Leaves = search (pattern-Leaves, leaving_rules) depth 20
