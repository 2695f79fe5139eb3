-- ===== src/Injectors/Link/Cleanup.antt =====
-- What `LinkInjector.go` leaves behind in the table of active faults.
use faultynet.Shared.{
  ap, ◌≢◌, lookup, ℕ, zero, suc, String, ◌≡◌, refl, true, false, Option, none, some, List, [], ◌∷◌,
  ok, err, Result, Exn, Bool-cases, inl, inr, All, is_in, ℤ,
}
use faultynet.Values.{float, Floats, Value, to_float}
use faultynet.Injectors.Script.{Event, World, Shell, perform_all, sleep, eject, Script, lift, ◌>>=◌}
use faultynet.Injectors.Args.{or_null}
use faultynet.Injectors.Tc.Parity.{is_built, built_command, make_parity}
use faultynet.Injectors.Filtered.Removal.{make_filtered_removal}
use faultynet.Injectors.Link.{inject_by_pattern}
use faultynet.Injectors.Link.Degradation.{next_degradation}
use faultynet.Injectors.Traces.{
  Merge, IsOther, IsTidy-cleans, is_marked, lookup-perform_all_of_own, IsOwn, IsTidy, IsBracket,
  IsTidy-bracket, IsTidy-bind, IsTidy-lift, IsTidy-if, IsTidy-sleep, tidy_rules,
}
use faultynet.Injectors.Link.{
  LinkInjector, execute, execute_all, inject_everything, inject_filtered, inject_nics, activation,
  inject_burst_pattern, degrade, inject_degradation_pattern, inject_persistent_pattern,
  do_injection,
}

-- What the removal of a fault does: one effect.
abbrev removal : {F : Floats} → LinkInjector F → String → Script F (Unit {0})
removal self c = record { events = eject self.tag (some c) ∷ []; result = ok tt }

module _ {F : Floats} (tc_path : String) (self : LinkInjector F) where
  execute_all-IsOwn :
      (cs : List String)
      → All (IsOwn self.tag) (execute_all self true cs).events
        × ((execute_all self true cs).result ≡ ok tt)
  unfolding execute_all
  execute_all-IsOwn [] = (tt, refl)
  execute_all-IsOwn (c ∷ cs) = let (own, r) = execute_all-IsOwn cs in ((refl, own), r)

  -- A command was there to run.
  execute_built :
      (r : Result (Option String))
      → (lift r >>= execute self true).result ≡ ok tt
      → is_built r ≡ true
  unfolding execute
  execute_built (ok (some c)) h = refl
  execute_built (ok none) h = cc
  execute_built (err e) h = cc

  execute-IsOwn :
      (r : Result (Option String)) → All (IsOwn self.tag) (lift r >>= execute self true).events
  unfolding execute
  execute-IsOwn (ok (some c)) = (refl, tt)
  execute-IsOwn (ok none) = tt
  execute-IsOwn (err e) = tt

  execute_failed :
      (r : Result (Option String)) {e : Exn}
      → (lift r >>= execute self true).result ≡ err e
      → (lift r >>= execute self true).events ≡ []
  unfolding execute
  execute_failed (ok (some c)) h = cc
  execute_failed (ok none) h = refl
  execute_failed (err e) h = refl

  execute_all-IsOwn' :
      (r : Result (List String)) → All (IsOwn self.tag) (lift r >>= execute_all self true).events
  execute_all-IsOwn' (ok cs) = (execute_all-IsOwn cs).0
  execute_all-IsOwn' (err e) = tt

  execute_all_failed :
      (r : Result (List String)) {e : Exn}
      → (lift r >>= execute_all self true).result ≡ err e
      → (lift r >>= execute_all self true).events ≡ []
  execute_all_failed (ok cs) h = cc ((execute_all-IsOwn cs).1)
  execute_all_failed (err e) h = refl

  execute_all_built :
      (r : Result (List String))
      → (lift r >>= execute_all self true).result ≡ ok tt
      → (cs : List String) × (r ≡ ok cs)
  execute_all_built (ok cs) h = (cs, refl)
  execute_all_built (err e) h = cc

  module _ (pattern : String) (args : Option (List (Value F))) where
    inject_everything-removal :
        (inject_everything tc_path self pattern args true).result ≡ ok tt
        → (c : String) × (inject_everything tc_path self pattern args false ≡ removal self c)
    unfolding inject_everything
    inject_everything-removal h =
        let built =
          make_parity tc_path self.namespace_pid self.target_interface self.fault_type pattern
            (or_null args) self.fault_args (execute_built _ h) in
        let (c, e) = built_command _ built in (c, ap (λ r. lift r >>= execute self false) e)

    -- The disabling commands of a filtered fault need only the interface.
    inject_filtered-removal :
        (inject_filtered tc_path self pattern args true).result ≡ ok tt
        → (c : String) × (inject_filtered tc_path self pattern args false ≡ removal self c)
    unfolding inject_filtered execute_all execute
    inject_filtered-removal h =
        let (cs, built) = execute_all_built _ h in
        let (c, e) =
          make_filtered_removal tc_path self.namespace_pid pattern args self.fault_type
            self.fault_args self.target_interface self.fault_target_protocol
            self.fault_target_dst_ports self.fault_target_src_ports built in
        (c, rw e)

    inject_everything-IsBracket :
        IsBracket self.tag
          (inject_everything tc_path self pattern args true)
          (inject_everything tc_path self pattern args false)
    inject_everything-IsBracket = record {
      own = unfold inject_everything in execute-IsOwn _;
      failed = unfold inject_everything in λ x h. execute_failed _ h;
      removed = inject_everything-removal;
    }

    inject_filtered-IsBracket :
        IsBracket self.tag
          (inject_filtered tc_path self pattern args true)
          (inject_filtered tc_path self pattern args false)
    inject_filtered-IsBracket = record {
      own = unfold inject_filtered in execute_all-IsOwn' _;
      failed = unfold inject_filtered in λ x h. execute_all_failed _ h;
      removed = inject_filtered-removal;
    }

    pub inject_nics-IsBracket :
        IsBracket self.tag
          (inject_nics tc_path self pattern args true)
          (inject_nics tc_path self pattern args false)
    unfolding inject_nics
    inject_nics-IsBracket = elim (Bool-cases (is_in "any" self.fault_target_protocol)) [
      | inl any ↦ rw any inject_everything-IsBracket
      | inr one ↦ rw one inject_filtered-IsBracket
    ]

    -- One activation leaves the tag absent, however it ends.
    activation-IsTidy :
        (duration : F.Float) → IsTidy self.tag (activation tc_path self pattern args duration)
    unfolding activation
    activation-IsTidy duration = IsTidy-bracket self.tag _ _ duration inject_nics-IsBracket

  pub burst-IsTidy : IsTidy self.tag (inject_burst_pattern tc_path self)
  unfolding inject_burst_pattern
  burst-IsTidy = search (tidy_rules, activation-IsTidy) depth 20

  degrade-IsTidy :
      (rounds : ℕ) (value : Value F) (step_size : String) (end : ℤ) (step_length : F.Float)
      → IsTidy self.tag (degrade tc_path self rounds value step_size end step_length)
  unfolding degrade
  degrade-IsTidy zero value step_size end step_length = record { own = tt; cleared = refl }
  degrade-IsTidy (suc rounds) value step_size end step_length =
      IsTidy-bind self.tag _ _ (activation-IsTidy "random" (some (value ∷ [])) step_length) (λ _.
        IsTidy-bind self.tag _ _ (IsTidy-lift self.tag (next_degradation value step_size end))
          (λ next. degrade-IsTidy rounds next step_size end step_length))

  pub degradation-IsTidy : IsTidy self.tag (inject_degradation_pattern tc_path self)
  unfolding inject_degradation_pattern
  degradation-IsTidy = search (tidy_rules, degrade-IsTidy) depth 20

  pub persistent-IsTidy :
      (time : F.Float)
      → to_float self.injection_time ≡ ok time
      → IsTidy self.tag (inject_persistent_pattern tc_path self)
  unfolding inject_persistent_pattern
  persistent-IsTidy time h = rw h (
      IsTidy-bracket self.tag _ _ time
        (inject_nics-IsBracket self.fault_pattern self.fault_pattern_args))

  inject_by_pattern-IsTidy :
      (time : F.Float)
      → to_float self.injection_time ≡ ok time
      → IsTidy self.tag (inject_by_pattern tc_path self)
  unfolding inject_by_pattern
  inject_by_pattern-IsTidy time h =
      IsTidy-if self.tag _ _ _ burst-IsTidy
        (IsTidy-if self.tag _ _ _ degradation-IsTidy (persistent-IsTidy time h))

  -- Where the injection time converts to a number, a run of the injector, whatever its fault, its
  -- pattern and their arguments, and whether it returns or raises, leaves its tag absent.
  do_injection-IsTidy :
      (time : F.Float)
      → to_float self.injection_time ≡ ok time
      → IsTidy self.tag (do_injection tc_path self)
  unfolding do_injection
  do_injection-IsTidy time h =
      IsTidy-bind self.tag _ _ (IsTidy-lift self.tag (to_float self.pre_injection_time)) λ before.
        IsTidy-bind self.tag (sleep (float before)) _ (IsTidy-sleep self.tag _) λ _.
          IsTidy-bind self.tag (inject_by_pattern tc_path self) _ (inject_by_pattern-IsTidy time h)
            λ _.
              IsTidy-bind self.tag _ _ (IsTidy-lift self.tag (to_float self.post_injection_time))
                λ after. IsTidy-sleep self.tag (float after)

  -- Concurrently with any other injectors, all of other tags, a run whose injection time converts
  -- to a number leaves its tag absent from the table of active faults if it was absent before, also
  -- where the run raises.
  pub do_injection_cleans :
      (shell : Shell) (w : World) (time : F.Float) (others trace : List (Event F))
      → to_float self.injection_time ≡ ok time
      → Merge (do_injection tc_path self).events others trace
      → All (IsOther self.tag) others
      → is_marked self.tag w.active ≡ false
      → is_marked self.tag (perform_all shell w trace).active ≡ false
  do_injection_cleans shell w time others trace h m o absent =
      IsTidy-cleans self.tag shell w (do_injection-IsTidy time h) m o absent

  -- Where the injection time converts to a number, a run changes no entry of another tag.
  lookup-do_injection :
      (shell : Shell) (w : World) (time : F.Float) (j : String)
      → to_float self.injection_time ≡ ok time
      → j ≢ self.tag
      → lookup j (perform_all shell w (do_injection tc_path self).events).active ≡ lookup j w.active
  lookup-do_injection shell w time j h ne =
      lookup-perform_all_of_own self.tag shell j w _ (do_injection-IsTidy time h).own ne
