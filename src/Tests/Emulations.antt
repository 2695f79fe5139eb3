-- ===== src/Tests/Emulations.antt =====
-- A small network and its hosts, pings and switches.
use faultynet.Shared.{
  get_elem?, ◌<◌, ℕ, ◌+◌, ◌≤◌, ◌≡◌, refl, String, true, false, ◌==◌, none, some, List, [], ◌∷◌,
  ◌++◌, length, Dict, ok, arith, ltb, lookup, if◌then◌else◌,
}
use faultynet.Emulation.{Mininet, Param, number}
use faultynet.Emulation.Distinct.{addresses_from}
use faultynet.Emulation.Hosts.{add_hosts, ip_params, add_hosts_addresses}
use faultynet.Emulation.Pings.{codes, parse_ping}
use faultynet.Emulation.Waiting.{wait_connected}
use faultynet.Emulation.Waiting.Late.{wait_connected_skips}
use faultynet.Shells.Pids.{Codes}

abbrev pub no_nodes : Mininet
no_nodes = record {
  ip_base_num = 0x0a000000;
  prefix_len = 8;
  next_ip = 1;
  in_namespace = false;
  auto_set_macs = true;
  auto_pin_cpus = false;
  num_cores = 4;
  next_core = 0;
  listen_port = none;
  hosts = [];
  switches = [];
  controllers = [];
  name_to_node = [];
}

abbrev two_hosts : List (ℕ × String × Dict Param)
two_hosts = (0, "h1", []) ∷ (1, "h2", ("cpu", number 1) ∷ []) ∷ []

add_hosts_addresses_example :
    ((net1 : Mininet) × (add_hosts two_hosts no_nodes ≡ ok net1)
      × (ip_params net1.hosts ≡ ip_params no_nodes.hosts ++ addresses_from 0x0a000000 8 1 2)
      × (net1.next_ip ≡ 1 + 2))
    × ((j k : ℕ)
        → j < 2
        → k < 2
        → get_elem? (addresses_from 0x0a000000 8 1 2) j
          ≡ get_elem? (addresses_from 0x0a000000 8 1 2) k
        → j ≡ k)
unfolding lookup
add_hosts_addresses_example =
    add_hosts_addresses two_hosts no_nodes (refl, (refl, tt)) refl (omega arith)

-- What ping prints where the second of two hosts is reached, and where nothing is.
abbrev replies : ℕ → ℕ → Codes
replies node dest = codes (
    if dest == 1
    then "1 packets transmitted, 1 received, 0% packet loss"
    else "connect: Network is unreachable")

answered : parse_ping (codes "PING\n1 packets transmitted, 1 packets received") ≡ (1, 1)
unfolding parse_ping
answered = refl

reached : (parse_ping (replies 0 1)).1 ≤ (parse_ping (replies 0 1)).0
unfolding parse_ping
reached = omega arith

lost_one : (parse_ping (replies 1 0)).1 ≤ (parse_ping (replies 1 0)).0
unfolding parse_ping
lost_one = omega arith

-- Two switches that connect a moment too late.
abbrev two_switches : List ℕ
two_switches = 3 ∷ 4 ∷ []

wait_connected_skips_example :
    wait_connected (λ _ _. false) (λ _. true) (λ _. true) 1 0 two_switches
    ≡ some (ltb (length two_switches) 2)
wait_connected_skips_example =
    wait_connected_skips (λ _ _. false) (λ _. true) (λ _. true) 0 0 two_switches (λ _. refl)
      (λ _. refl) refl
