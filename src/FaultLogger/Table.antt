-- ===== src/FaultLogger/Table.antt =====
-- The table of active faults as a map from tags.
use faultynet.Shared.{
  String, ◌≡◌, none, some, arith, eq_iff, str_eq, lookup, lookup-insert, lookup-erase, ℤ,
  if◌then◌else◌,
}
use faultynet.FaultLogger.{Entry, ActiveFaults, set_fault_active, set_fault_inactive}

abbrev pub entry : String → String → String → ℤ → Entry
entry tag fault_type command retcode = record {
  fault_tag = tag;
  fault_type = fault_type;
  command = command;
  retcode = retcode;
}

pub lookup-set_fault_active :
    (tag j fault_type command : String) (retcode : ℤ) (d : ActiveFaults)
    → lookup j (set_fault_active tag fault_type command retcode d)
      ≡ (if str_eq tag j then some (entry tag fault_type command retcode) else lookup j d)
unfolding set_fault_active
lookup-set_fault_active tag j fault_type command retcode d =
    lookup-insert tag j (entry tag fault_type command retcode) d

pub lookup-set_fault_inactive :
    (tag j : String) (d : ActiveFaults)
    → lookup j (set_fault_inactive tag d) ≡ (if str_eq tag j then none else lookup j d)
unfolding set_fault_inactive
lookup-set_fault_inactive tag j d = ground (arith, lookup-erase tag j d, eq_iff tag j)
