-- ===== src/Injectors/Filtered.antt =====
-- `LinkInjector.make_filtered_nics_injection_command`: the commands for the traffic of one protocol.
pub mod Removal
use faultynet.Shared.{
  ℕ, String, ◌<>◌, Bool, true, false, not, Option, none, some, List, [], ◌∷◌, ◌++◌, map, Result, ok,
  err, type_error, key_error, ◌>>=◌, ◌==◌, ℤ, pos, negsuc, ◌-ℤ◌, Dict, lookup, is_in, cat, replace,
  show_ℤ, if◌then◌else◌,
}
use faultynet.Values.{Floats, Value, to_int, to_str, item}
use faultynet.Injectors.Args.{
  base_command_tc, need_device, redirect_or_mirror, bottleneck_sizes, text_item,
}

-- The ports of the target traffic, as the configuration gives them: absent, one integer, or a list.
pub data Ports (F : Floats) : Type 0 where
  absent : Ports F
  single : ℤ → Ports F
  several : List (Value F) → Ports F

-- `self.target_protocol_table`
abbrev pub target_protocol_table : Dict String
target_protocol_table =
    ("ICMP", "1")
    ∷ ("IGMP", "2")
    ∷ ("IP", "4")
    ∷ ("TCP", "6")
    ∷ ("UDP", "17")
    ∷ ("IPv6", "41")
    ∷ ("IPv6-ICMP", "58")
    ∷ []

unfoldable pub protocol_number : String → Result String
unfolding lookup
protocol_number protocol = elim (lookup protocol target_protocol_table) [
  | none ↦ err key_error
  | some n ↦ ok n
]

-- The commands that match traffic get the redirection as their action.
unfoldable pub with_redirection : String → List String → List String
with_redirection append_string = map λ command.
    if is_in "match" command
    then replace command "parent 1:0" "parent ffff:" <> append_string
    else command

module _ {F : Floats} where
  -- The ports as a condition.
  unfoldable pub truthy : Ports F → Bool
  truthy absent = false
  truthy (single (pos n)) = not (n == 0)
  truthy (single (negsuc n)) = true
  truthy (several []) = false
  truthy (several (_ ∷ _)) = true

  -- `for target_port in ports`: an integer is not iterable.
  unfoldable pub iterate : Ports F → Result (List (Value F))
  iterate absent = err type_error
  iterate (single n) = err type_error
  iterate (several vs) = ok vs

  -- The filters for the ports of one direction.
  unfoldable pub port_filters : String → String → List (Value F) → List String
  unfolding to_str
  port_filters filter_command direction = map λ port.
      cat
        (filter_command ∷ " match ip " ∷ direction ∷ " " ∷ to_str port ∷ " 0xffff flowid 1:1" ∷ [])

  -- The destination ports add filters of their own. The filter for the whole protocol is the other
  -- branch of the test of the source ports alone.
  unfoldable pub traffic_filters : String → Ports F → Ports F → Result (List String)
  unfolding truthy iterate port_filters
  traffic_filters filter_command dst_ports src_ports =
      let dst : Result (List String) =
        iterate dst_ports >>= λ ports. ok (port_filters filter_command "dport" ports) in
      let src : Result (List String) =
        iterate src_ports >>= λ ports. ok (port_filters filter_command "sport" ports) in
      let whole : Result (List String) = ok ((filter_command <> " flowid 1:1") ∷ []) in
      (if truthy dst_ports then dst else ok []) >>= λ by_dst.
      (if truthy src_ports then src else whole) >>= λ by_src. ok (by_dst ++ by_src)

module _ {F : Floats} (tc_path : String) where
  -- The queue that the filtered traffic goes to, after the commands that filter it.
  unfoldable pub with_fault :
      Option ℕ
      → String
      → String
      → Option (List (Value F))
      → String
      → Option (List (Value F))
      → List String
      → Result (List String)
  unfolding base_command_tc bottleneck_sizes text_item item redirect_or_mirror to_int to_str
      with_redirection
  with_fault node_pid device fault_pattern fault_pattern_args fault_type fault_args cmd_list =
      let base = base_command_tc tc_path node_pid in
      let netem = cat (
        base ∷ "qdisc add dev " ∷ device ∷ " parent 1:1 handle 2: netem " ∷ fault_type ∷ " "
        ∷ []) in
      let random_delay : Result (List String) =
        item fault_pattern_args 0 >>= to_int >>= λ percentage. text_item fault_args 0 >>= λ latency.
        ok (
          cmd_list
          ++ (cat (netem ∷ latency ∷ " reorder " ∷ show_ℤ (pos 100 -ℤ percentage) ∷ "%" ∷ [])
              ∷ [])) in
      let random_other : Result (List String) = item fault_pattern_args 0 >>= λ v.
      ok (cmd_list ++ (cat (netem ∷ to_str v ∷ "%" ∷ []) ∷ [])) in
      let bottleneck : Result (List String) = bottleneck_sizes fault_args >>= λ sizes.
      text_item fault_args 0 >>= λ rate. ok (
        cmd_list
        ++ (cat (
              base ∷ "qdisc add dev " ∷ device ∷ " parent 1:1 handle 2: tbf rate " ∷ rate
              ∷ "kbit burst " ∷ sizes.0 ∷ " limit " ∷ sizes.1 ∷ [])
            ∷ [])) in
      let redirected : Result (List String) = text_item fault_args 0 >>= λ destination_interface.
      ok (
        with_redirection
          (cat (
            " action mirred egress "
            ∷ redirect_or_mirror fault_args
            ∷ " dev "
            ∷ destination_interface
            ∷ []))
          cmd_list) in
      let netem' = cat (
        base ∷ " qdisc add dev " ∷ device ∷ " parent 1:1 handle 2: netem " ∷ fault_type ∷ " "
        ∷ []) in
      let persistent_delay : Result (List String) = item fault_args 0 >>= λ latency.
      ok (cmd_list ++ (cat (netem' ∷ to_str latency ∷ []) ∷ [])) in
      let persistent_other : Result (List String) =
        ok (cmd_list ++ (cat (netem' ∷ "100%" ∷ []) ∷ [])) in
      if is_in "random" fault_pattern
      then if is_in "delay" fault_type then random_delay else random_other
      else if is_in "persistent" fault_pattern
      then if is_in "bottleneck" fault_type
        then bottleneck
        else if is_in "redirect" fault_type
        then redirected
        else if is_in "delay" fault_type
        then persistent_delay
        else persistent_other
      else ok cmd_list

  unfoldable pub make_filtered_nics_injection_command :
      Option ℕ
      → String
      → Option (List (Value F))
      → String
      → Option (List (Value F))
      → Option String
      → String
      → Ports F
      → Ports F
      → Bool
      → Result (List String)
  unfolding base_command_tc need_device protocol_number traffic_filters with_fault
  make_filtered_nics_injection_command node_pid fault_pattern fault_pattern_args fault_type
        fault_args interface target_protocol target_dst_ports target_src_ports enable =
      let base = base_command_tc tc_path node_pid in
      let enabled : String → Result (List String) = λ device.
        let qdisc =
          if is_in "redirect" fault_type
          then cat (base ∷ "qdisc add dev " ∷ device ∷ " handle ffff: ingress " ∷ [])
          else cat (base ∷ "qdisc add dev " ∷ device ∷ " root handle 1: prio" ∷ []) in
        protocol_number target_protocol >>= λ number.
        let filter_command = cat (
          base ∷ "filter add dev " ∷ device ∷ " parent 1:0 protocol ip prio 1 u32 "
          ∷ "match ip protocol " ∷ number ∷ " 0xff" ∷ []) in
        traffic_filters filter_command target_dst_ports target_src_ports >>= λ filters.
        with_fault node_pid device fault_pattern fault_pattern_args fault_type fault_args
          (qdisc ∷ filters) in
      let disabled : String → String = λ device.
        if is_in "redirect" fault_type
        then cat (base ∷ "qdisc del dev " ∷ device ∷ " ingress " ∷ [])
        else cat (base ∷ " qdisc del dev " ∷ device ∷ " root handle 1: prio" ∷ []) in
      need_device interface >>= λ device.
      if enable then enabled device else ok (disabled device ∷ [])
