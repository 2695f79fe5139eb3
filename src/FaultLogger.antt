-- ===== src/FaultLogger.antt =====
-- mininet/faultlogger.py: the table of active faults and what the logger writes from it.
pub mod Table
pub mod Log
pub mod Entries
use faultynet.Shared.{String, none, some, List, ℤ, Dict, lookup, insert, erase, values}

-- A value of `ACTIVE_FAULTS_DICT`.
pub record Entry : Type 0 where
  pub fault_tag : String
  pub fault_type : String
  pub command : String
  pub retcode : ℤ

-- `ACTIVE_FAULTS_DICT`
abbrev pub ActiveFaults : Type 0
ActiveFaults = Dict Entry

unfoldable pub set_fault_active : String → String → String → ℤ → ActiveFaults → ActiveFaults
set_fault_active tag fault_type command retcode d =
    insert tag
      (record { fault_tag = tag; fault_type = fault_type; command = command; retcode = retcode }) d

-- `del` of a missing tag raises a KeyError, which is caught: the table stays as it is.
unfoldable pub set_fault_inactive : String → ActiveFaults → ActiveFaults
set_fault_inactive tag d = elim (lookup tag d) [ none ↦ d | some _ ↦ erase tag d ]

unfoldable pub get_active_faults : ActiveFaults → List Entry
unfolding values
get_active_faults d = values d
