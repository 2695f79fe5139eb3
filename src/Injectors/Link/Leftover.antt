-- ===== src/Injectors/Link/Leftover.antt =====
-- The persistent pattern of `LinkInjector` reads the injection time after it has activated the
-- fault.
use faultynet.Shared.{String, ◌≡◌, true, false, some, Exn, ok, err, arith, eq_iff, is_in}
use faultynet.Values.{Floats, to_float}
use faultynet.Injectors.Script.{World, Shell, perform_all, sleep}
use faultynet.Injectors.Args.{or_null}
use faultynet.Injectors.Tc.{make_nics_injection_command}
use faultynet.Injectors.Traces.{is_marked, is_marked-perform_all}
use faultynet.Injectors.Link.{
  LinkInjector, execute, inject_nics, inject_everything, inject_persistent_pattern,
  inject_by_pattern, do_injection,
}

-- A fault of all traffic, neither in bursts nor in steps, whose injection time does not convert to
-- a number and whose enabling command can be built, is active when its run has ended, with an error.
pub leftover :
    {F : Floats} (tc_path : String) (self : LinkInjector F) (shell : Shell) (w : World)
    (before : F.Float) (x : Exn) (c : String)
    → is_in "burst" self.fault_pattern ≡ false
    → is_in "degradation" self.fault_pattern ≡ false
    → is_in "any" self.fault_target_protocol ≡ true
    → to_float self.pre_injection_time ≡ ok before
    → to_float self.injection_time ≡ err x
    → make_nics_injection_command tc_path self.namespace_pid self.target_interface self.fault_type
        self.fault_pattern
        (or_null self.fault_pattern_args)
        self.fault_args
        "add"
      ≡ ok (some c)
    → (is_marked self.tag (perform_all shell w (do_injection tc_path self).events).active ≡ true)
      × ((do_injection tc_path self).result ≡ err x)
unfolding do_injection inject_by_pattern inject_persistent_pattern inject_nics inject_everything
    execute sleep
leftover tc_path self shell w before x c nb nd any pre inj built = (
  rw is_marked-perform_all
      (rw (nb, nd, any, pre, built, inj) (ground (arith, eq_iff self.tag self.tag))),
  rw (nb, nd, any, pre, built, inj),
)
