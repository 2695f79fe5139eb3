-- ===== src/Injectors/Tc.antt =====
-- `LinkInjector.make_nics_injection_command`: the command for all traffic of an interface.
pub mod Parity
use faultynet.Shared.{
  ℕ, String, ◌<>◌, Option, none, some, List, [], ◌∷◌, Result, ok, err, value_error, ◌>>=◌, ℤ, pos,
  ◌-ℤ◌, is_in, cat, show_ℤ, if◌then◌else◌,
}
use faultynet.Values.{Floats, Value, or_raise, to_int, to_str, item, divide}
use faultynet.Injectors.Args.{
  base_command_tc, show_pid, need_device, redirect_or_mirror, bottleneck_sizes, text_item,
}

module _ (tc_path : String) where
  -- `base_qdisc_netem_command`
  unfoldable pub netem_command : Option ℕ → String → String → String
  unfolding base_command_tc
  netem_command node_pid device tc_cmd = cat (
      base_command_tc tc_path node_pid ∷ "qdisc " ∷ tc_cmd ∷ " dev " ∷ device ∷ " root netem " ∷ [])

  unfoldable pub down_command : Option ℕ → String → String → Option String
  unfolding show_pid
  down_command node_pid device tc_cmd =
      let ifconfig = cat (
        "nsenter --target "
        ∷ show_pid node_pid
        ∷ " --net "
        ∷ tc_path
        ∷ "/ifconfig "
        ∷ device
        ∷ []) in
      if is_in "add" tc_cmd
      then some (ifconfig <> " down")
      else if is_in "del" tc_cmd
      then some (ifconfig <> " up")
      else none

-- The threshold for a random 32-bit value: `int(4294967295 * (percentage / 100))`.
unfoldable pub random_boundary : (F : Floats) → ℤ → Result ℤ
unfolding divide
random_boundary F percentage = divide F (F.of_int percentage) (F.of_int (pos 100)) >>= λ part.
    or_raise (F.trunc (F.mul (F.of_int (pos 4294967295)) part)) (err value_error)

unfoldable pub random_filter : ℤ → String
random_filter boundary =
    cat (" basic match \"meta( random mask 4294967295 lt " ∷ show_ℤ boundary ∷ " ) \" " ∷ [])

module _ {F : Floats} (tc_path : String) where
  -- The two commands that redirect what the filter matches, or the one that removes them.
  unfoldable pub redirect_command :
      Option ℕ → String → String → Option (List (Value F)) → String → Result (Option String)
  unfolding item redirect_or_mirror text_item base_command_tc
  redirect_command node_pid device filter_string fault_args tc_cmd =
      let base = base_command_tc tc_path node_pid in
      let prep_command =
        cat (base ∷ "qdisc " ∷ tc_cmd ∷ " dev " ∷ device ∷ " handle ffff: ingress " ∷ []) in
      let added = text_item fault_args 0 >>= λ destination_interface. ok (
        some (
          cat (
            prep_command
            ∷ " ; "
            ∷ base
            ∷ "filter "
            ∷ tc_cmd
            ∷ " dev "
            ∷ device
            ∷ " parent ffff: "
            ∷ filter_string
            ∷ " action mirred egress "
            ∷ redirect_or_mirror fault_args
            ∷ " dev "
            ∷ destination_interface
            ∷ []))) in
      let deleted : Result (Option String) =
        ok (some (cat (base ∷ "qdisc " ∷ tc_cmd ∷ " dev " ∷ device ∷ " ingress " ∷ []))) in
      item fault_args 0 >>= λ _.
      if is_in "add" tc_cmd then added else if is_in "del" tc_cmd then deleted else ok none

  unfoldable pub random_command :
      Option ℕ
      → String
      → String
      → Option (List (Value F))
      → Option (List (Value F))
      → String
      → Result (Option String)
  unfolding netem_command redirect_command random_boundary item to_int to_str text_item
  random_command node_pid device fault_type fault_pattern_args fault_args tc_cmd =
      let netem = netem_command tc_path node_pid device tc_cmd in
      let delayed : Result (Option String) = item fault_pattern_args 0 >>= to_int >>= λ percentage.
      text_item fault_args 0 >>= λ latency. ok (
        some (
          cat (
            netem
            ∷ fault_type
            ∷ " "
            ∷ latency
            ∷ " reorder "
            ∷ show_ℤ (pos 100 -ℤ percentage)
            ∷ "%"
            ∷ []))) in
      let redirected : Result (Option String) =
        item fault_pattern_args 0 >>= to_int >>= random_boundary F >>= λ boundary.
        redirect_command node_pid device (random_filter boundary <> " ") fault_args tc_cmd in
      let other : Result (Option String) = item fault_pattern_args 0 >>= λ v.
      ok (some (cat (netem ∷ fault_type ∷ " " ∷ to_str v ∷ "%" ∷ []))) in
      if is_in "delay" fault_type
      then delayed
      else if is_in "redirect" fault_type
      then redirected
      else other

  unfoldable pub persistent_command :
      Option ℕ → String → String → Option (List (Value F)) → String → Result (Option String)
  unfolding netem_command redirect_command down_command bottleneck_sizes text_item base_command_tc
  persistent_command node_pid device fault_type fault_args tc_cmd =
      let netem = netem_command tc_path node_pid device tc_cmd in
      let delayed : Result (Option String) = text_item fault_args 0 >>= λ latency.
      ok (some (cat (netem ∷ fault_type ∷ " " ∷ latency ∷ []))) in
      let bottleneck : Result (Option String) = bottleneck_sizes fault_args >>= λ sizes.
      text_item fault_args 0 >>= λ rate. ok (
        some (
          cat (
            base_command_tc tc_path node_pid
            ∷ " qdisc "
            ∷ tc_cmd
            ∷ " dev "
            ∷ device
            ∷ " root tbf rate "
            ∷ rate
            ∷ "kbit burst "
            ∷ sizes.0
            ∷ " limit "
            ∷ sizes.1
            ∷ []))) in
      if is_in "delay" fault_type
      then delayed
      else if is_in "bottleneck" fault_type
      then bottleneck
      else if is_in "redirect" fault_type
      then redirect_command node_pid device "matchall " fault_args tc_cmd
      else if is_in "down" fault_type
      then ok (down_command tc_path node_pid device tc_cmd)
      else ok (some (cat (netem ∷ fault_type ∷ " 100%" ∷ [])))

  -- `none` is the command of an unknown pattern.
  unfoldable pub make_nics_injection_command :
      Option ℕ
      → Option String
      → String
      → String
      → Option (List (Value F))
      → Option (List (Value F))
      → String
      → Result (Option String)
  unfolding need_device random_command persistent_command
  make_nics_injection_command node_pid interface fault_type fault_pattern fault_pattern_args
        fault_args tc_cmd =
      need_device interface >>= λ device.
      if is_in "random" fault_pattern
      then random_command node_pid device fault_type fault_pattern_args fault_args tc_cmd
      else if is_in "persistent" fault_pattern
      then persistent_command node_pid device fault_type fault_args tc_cmd
      else ok none
