-- ===== src/Injectors/Multi/Tidy.antt =====
-- What `MultiInjector.go` leaves behind in the table of active faults.
use faultynet.Shared.{◌≡◌, true, false, List, ok, All, pos_part}
use faultynet.Values.{Floats, Value, float}
use faultynet.Injectors.Script.{Event, World, Shell, perform_all, sleep, ◌>>=◌}
use faultynet.Injectors.Nodes.Rounds.{round-IsTidy, then-IsTidy, number-float}
use faultynet.Injectors.Nodes.{number, burst_of, rounds}
use faultynet.Injectors.Multi.{
  MultiInjector, execute_command_for_node, inject_burst, inject_persistent, do_injection,
}
use faultynet.Injectors.Traces.{
  Merge, IsOther, is_marked, IsTidy, IsTidy-bind, IsTidy-cleans, IsTidy-lift, IsTidy-if,
  IsTidy-sleep, IsTidy-repeat,
}

module _ {F : Floats} (self : MultiInjector F) where
  -- The three effects of an activation, for a wait that is a number.
  activation-IsTidy :
      (v : Value F) (time : F.Float)
      → number v ≡ ok time
      → IsTidy self.tag (
          execute_command_for_node self self.inject_command true >>= λ _.
          sleep v >>= λ _. execute_command_for_node self self.eject_command false)
  unfolding execute_command_for_node
  activation-IsTidy v time h = round-IsTidy self.tag _ _ _ _ v time h

  burst-IsTidy : IsTidy self.tag (inject_burst self)
  unfolding inject_burst execute_command_for_node
  burst-IsTidy =
      IsTidy-bind self.tag _ _ (IsTidy-lift self.tag (burst_of self.fault_pattern_args)) λ burst.
        IsTidy-bind self.tag _ _ (IsTidy-lift self.tag (rounds self.injection_time burst.period))
          λ n. IsTidy-repeat self.tag (pos_part n) _ (
            then-IsTidy self.tag _ _ _ _ (float burst.duration)
              (sleep (float (F.sub burst.period burst.duration))) burst.duration
              (number-float F burst.duration)
              (IsTidy-sleep self.tag (float (F.sub burst.period burst.duration))))

  persistent-IsTidy :
      (time : F.Float)
      → number self.injection_time ≡ ok time
      → IsTidy self.tag (inject_persistent self)
  unfolding inject_persistent
  persistent-IsTidy time h = activation-IsTidy self.injection_time time h

  do_injection-IsTidy :
      (time : F.Float) → number self.injection_time ≡ ok time → IsTidy self.tag (do_injection self)
  unfolding do_injection
  do_injection-IsTidy time h =
      IsTidy-bind self.tag (sleep self.pre_injection_time) _ (IsTidy-sleep self.tag _) λ _.
        IsTidy-bind self.tag _ _
          (IsTidy-if self.tag _ _ _ burst-IsTidy
            (IsTidy-if self.tag _ _ _ (persistent-IsTidy time h) (IsTidy-lift self.tag (ok tt))))
          λ _. IsTidy-sleep self.tag self.post_injection_time

  -- Concurrently with any other injectors, all of other tags, a run of a fault of several interfaces
  -- whose injection time is a number leaves its tag absent from the table of active faults if it was
  -- absent before, also where the run raises.
  pub multi_injection_cleans :
      (shell : Shell) (w : World) (time : F.Float) (others trace : List (Event F))
      → number self.injection_time ≡ ok time
      → Merge (do_injection self).events others trace
      → All (IsOther self.tag) others
      → is_marked self.tag w.active ≡ false
      → is_marked self.tag (perform_all shell w trace).active ≡ false
  multi_injection_cleans shell w time others trace h m o absent =
      IsTidy-cleans self.tag shell w (do_injection-IsTidy time h) m o absent
