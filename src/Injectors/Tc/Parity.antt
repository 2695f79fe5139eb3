-- ===== src/Injectors/Tc/Parity.antt =====
-- The command that removes a fault can be built wherever the one that adds it can.
use faultynet.Shared.{
  ℕ, String, ◌≡◌, refl, Bool, true, false, Option, none, some, List, Result, ok, err, arith, is_in,
}
use faultynet.Values.{Floats, Value}
use faultynet.Injectors.Tc.{
  redirect_command, random_command, persistent_command, down_command, make_nics_injection_command,
}

-- A command was built.
abbrev pub is_built : Result (Option String) → Bool
is_built (ok (some _)) = true
is_built (ok none) = false
is_built (err _) = false

pub built_command :
    (r : Result (Option String)) → is_built r ≡ true → (c : String) × (r ≡ ok (some c))
built_command (ok (some c)) h = (c, refl)
built_command (ok none) h = ground arith
built_command (err e) h = ground arith

module _ {F : Floats} (tc_path : String) (node_pid : Option ℕ) (device : String) where
  redirect_parity :
      (filter_string : String) (fault_args : Option (List (Value F)))
      → is_built (redirect_command tc_path node_pid device filter_string fault_args "add") ≡ true
      → is_built (redirect_command tc_path node_pid device filter_string fault_args "del") ≡ true
  unfolding redirect_command is_in
  redirect_parity filter_string fault_args h = ground arith

  random_parity :
      (fault_type : String) (fault_pattern_args fault_args : Option (List (Value F)))
      → is_built
          (random_command tc_path node_pid device fault_type fault_pattern_args fault_args "add")
        ≡ true
      → is_built
          (random_command tc_path node_pid device fault_type fault_pattern_args fault_args "del")
        ≡ true
  unfolding random_command redirect_command is_in
  random_parity fault_type fault_pattern_args fault_args h = ground arith

  persistent_parity :
      (fault_type : String) (fault_args : Option (List (Value F)))
      → is_built (persistent_command tc_path node_pid device fault_type fault_args "add") ≡ true
      → is_built (persistent_command tc_path node_pid device fault_type fault_args "del") ≡ true
  unfolding persistent_command down_command redirect_command is_in
  persistent_parity fault_type fault_args h = ground arith

-- For any interface, fault type, pattern and arguments: wherever the command
-- that adds a fault can be built, the command that removes it can be built too.
pub make_parity :
    {F : Floats} (tc_path : String) (node_pid : Option ℕ) (interface : Option String)
    (fault_type fault_pattern : String) (fault_pattern_args fault_args : Option (List (Value F)))
    → is_built (
        make_nics_injection_command tc_path node_pid interface fault_type fault_pattern
          fault_pattern_args fault_args "add")
      ≡ true
    → is_built (
        make_nics_injection_command tc_path node_pid interface fault_type fault_pattern
          fault_pattern_args fault_args "del")
      ≡ true
unfolding make_nics_injection_command
make_parity tc_path node_pid none fault_type fault_pattern fault_pattern_args fault_args h = h
make_parity tc_path node_pid (some device) fault_type fault_pattern fault_pattern_args fault_args
      h =
    ground (
      arith,
      random_parity tc_path node_pid device fault_type fault_pattern_args fault_args,
      persistent_parity tc_path node_pid device fault_type fault_args,
    )
