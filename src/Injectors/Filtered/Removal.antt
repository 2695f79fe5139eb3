-- ===== src/Injectors/Filtered/Removal.antt =====
-- The command that removes the queues of a filtered fault.
use faultynet.Shared.{
  ℕ, String, ◌≡◌, refl, true, false, Option, none, some, List, [], ◌∷◌, ok, arith,
}
use faultynet.Values.{Floats, Value}
use faultynet.Injectors.Filtered.{Ports, make_filtered_nics_injection_command}

-- One command removes what any enabled fault of an interface has added.
pub make_filtered_removal :
    {F : Floats} (tc_path : String) (node_pid : Option ℕ) (fault_pattern : String)
    (fault_pattern_args : Option (List (Value F))) (fault_type : String)
    (fault_args : Option (List (Value F))) (interface : Option String) (protocol : String)
    (dst src : Ports F) {cs : List String}
    → make_filtered_nics_injection_command tc_path node_pid fault_pattern fault_pattern_args
        fault_type fault_args interface protocol dst src true
      ≡ ok cs
    → (c : String) × (make_filtered_nics_injection_command tc_path node_pid fault_pattern
          fault_pattern_args fault_type fault_args interface protocol dst src false
        ≡ ok (c ∷ []))
unfolding make_filtered_nics_injection_command
make_filtered_removal tc_path node_pid p pa t fa none protocol dst src h = ground arith
make_filtered_removal tc_path node_pid p pa t fa (some device) protocol dst src h = (_, refl)
