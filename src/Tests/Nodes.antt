-- ===== src/Tests/Nodes.antt =====
-- The faults of nodes and of several interfaces at concrete configurations.
use faultynet.Shared.{
  ◌≡◌, refl, true, false, some, none, [], ◌∷◌, pos, ok, err, value_error, err-ne-ok,
}
use faultynet.Values.{Value, int, item}
use faultynet.Injectors.Script.{perform_all}
use faultynet.Injectors.Traces.{is_marked}
use faultynet.Injectors.Nodes.{number}
use faultynet.Injectors.Node.{NodeInjector, Host, do_injection as inject_node}
use faultynet.Injectors.Node.Tidy.{node_injection_cleans}
use faultynet.Injectors.Node.Commands.{is_command}
use faultynet.Injectors.Multi.{MultiInjector, do_injection as inject_multi}
use faultynet.Injectors.Multi.Tidy.{multi_injection_cleans}
use faultynet.Tests.Samples.{thousandths, quiet, start, alone}

abbrev pub idle_host : Host thousandths
idle_host = record { format = λ s n. err value_error; cgroup_size = some 1000 }

abbrev stress : NodeInjector thousandths
stress = record {
  target_process_pid = some 41;
  tag = "n@h1";
  fault_type = "stress_cpu";
  pre_injection_time = int (pos 0);
  injection_time = int (pos 4);
  post_injection_time = int (pos 0);
  fault_args = some (int (pos 40) ∷ []);
  fault_pattern = "burst";
  fault_pattern_args = some (int (pos 1000) ∷ int (pos 2000) ∷ []);
}

no_end : (v : Value thousandths) → item stress.fault_args 1 ≡ ok v → is_command v ≡ true
unfolding item
no_end v e = absurd (err-ne-ok e)

node_injection_cleans_example :
    is_marked stress.tag (perform_all quiet start (inject_node idle_host stress).events).active
    ≡ false
unfolding is_marked number faultynet.Shared.lookup
node_injection_cleans_example =
    node_injection_cleans stress idle_host quiet start 4000 [] (inject_node idle_host stress).events
      no_end refl (alone (inject_node idle_host stress).events) tt refl

abbrev pub several : MultiInjector thousandths
several = record {
  target_process_pid = some 41;
  tag = "m@h1";
  fault_pattern = "persistent";
  fault_pattern_args = none;
  pre_injection_time = int (pos 0);
  injection_time = int (pos 2);
  post_injection_time = int (pos 0);
  inject_command = "echo on";
  eject_command = "echo off";
}

multi_injection_cleans_example :
    is_marked several.tag (perform_all quiet start (inject_multi several).events).active ≡ false
unfolding is_marked number faultynet.Shared.lookup
multi_injection_cleans_example =
    multi_injection_cleans several quiet start 2000 [] (inject_multi several).events refl
      (alone (inject_multi several).events) tt refl
