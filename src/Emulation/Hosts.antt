-- ===== src/Emulation/Hosts.antt =====
-- The addresses of the hosts that are added to a network one after another (mininet/net.py).
use faultynet.Shared.{
  get_elem?, All, lookup-insert, ℕ, ◌+◌, ◌≤◌, ◌<◌, ◌≡◌, refl, sym, ap, ◌∙◌, String, str_eq, false,
  true, Option, none, some, List, [], ◌∷◌, ◌++◌, append_nil, length, map, Dict, lookup, insert,
  Result, ok, err, assertion_error, ◌>>=◌, arith, ltb,
}
use faultynet.Addresses.{ip_str, ip_add, last_in_subnet, network_of}
use faultynet.Addresses.Subnets.{ip_add_fits}
use faultynet.Emulation.Distinct.{addresses_from, addresses_distinct}
use faultynet.Emulation.{
  Mininet, Member, Param, text, with_prefix, update, host_defaults, core_after, hosted, add_host,
}

-- The hosts of a topology are added in their order.
unfoldable pub add_hosts : List (ℕ × String × Dict Param) → Mininet → Result Mininet
unfolding add_host
add_hosts [] net = ok net
add_hosts ((id, name, params) ∷ more) net = add_host id name params net >>= add_hosts more

abbrev pub ip_params : List Member → List (Option Param)
ip_params = map (λ m. lookup "ip" m.params)

-- Parameters without an address.
abbrev pub HasNoIp : ℕ × String × Dict Param → Type 0
HasNoIp (id, name, params) = lookup "ip" params ≡ none

lookup-update :
    (k : String) (params defaults : Dict Param)
    → lookup k params ≡ none
    → lookup k (update defaults params) ≡ lookup k defaults
unfolding update lookup
lookup-update k [] defaults h = refl
lookup-update k ((j, v) ∷ params) defaults h =
    let other : str_eq j k ≡ false = ground (arith, h) in
    let rest : lookup k params ≡ none = ground (arith, h, other) in
    lookup-update k params (insert j v defaults) rest
    ∙ lookup-insert j k v defaults
    ∙ ground (arith, other)

default_ip :
    (address : String) (params : Dict Param) (net : Mininet)
    → lookup "ip" params ≡ none
    → lookup "ip" (update (host_defaults address net) params)
      ≡ some (text (with_prefix address net.prefix_len))
unfolding lookup
default_ip address params net h = lookup-update "ip" params (host_defaults address net) h

unpinned_core : (net : Mininet) → net.auto_pin_cpus ≡ false → core_after net ≡ ok net.next_core
unpinned_core net h = ground (arith, h)

pub add_host-hosted :
    (id : ℕ) (name : String) (params : Dict Param) (address : String) (net : Mininet)
    → net.auto_pin_cpus ≡ false
    → ip_add net.next_ip net.prefix_len net.ip_base_num ≡ ok address
    → add_host id name params net ≡ ok (hosted id name params net address net.next_core)
unfolding add_host
add_host-hosted id name params address net unpinned given =
    rw (given, unpinned_core net unpinned) refl

ip_params-snoc :
    (hosts : List Member) (h : Member) (ip : Option Param) (rest : List (Option Param))
    → lookup "ip" h.params ≡ ip
    → ip_params (hosts ++ (h ∷ [])) ++ rest ≡ ip_params hosts ++ (ip ∷ rest)
ip_params-snoc [] h ip rest e = ap (λ i. i ∷ rest) e
ip_params-snoc (m ∷ hosts) h ip rest e =
    ap (λ l. lookup "ip" m.params ∷ l) (ip_params-snoc hosts h ip rest e)

ip_add_refused :
    (i prefix_len base : ℕ)
    → last_in_subnet prefix_len < i
    → ip_add i prefix_len base ≡ err assertion_error
unfolding ip_add
ip_add_refused i prefix_len base h =
    let over : ltb (last_in_subnet prefix_len) i ≡ true = ground (arith, h) in rw over refl

addresses_given :
    (new : List (ℕ × String × Dict Param)) (net : Mininet)
    → All HasNoIp new
    → net.auto_pin_cpus ≡ false
    → net.next_ip + length new ≤ last_in_subnet net.prefix_len + 1
    → (net1 : Mininet) × (add_hosts new net ≡ ok net1)
      × (ip_params net1.hosts
          ≡ ip_params net.hosts
            ++ addresses_from net.ip_base_num net.prefix_len net.next_ip (length new))
      × (net1.next_ip ≡ net.next_ip + length new)
unfolding add_hosts
addresses_given [] net all unpinned room =
    (net, refl, sym (append_nil (ip_params net.hosts)), omega arith)
addresses_given ((id, name, params) ∷ new) net all unpinned room =
    let address = ip_str (network_of net.prefix_len net.ip_base_num + net.next_ip) in
    let given = ip_add_fits net.next_ip net.prefix_len net.ip_base_num (omega (arith, room)) in
    let (net1, added, ips, next) =
      addresses_given new (hosted id name params net address net.next_core) all.1 unpinned
        (omega (arith, room)) in
    (
      net1,
      ap (λ r. r >>= add_hosts new) (add_host-hosted id name params address net unpinned given)
          ∙ added,
      ips ∙ ip_params-snoc net.hosts _ _ _ (default_ip address params net all.0),
      omega (arith, next),
    )

-- Hosts whose parameters name no address, where cores are not assigned, are given the addresses of the
-- subnet one after another, as long as there are enough, and no two of them the same one.
pub add_hosts_addresses :
    (new : List (ℕ × String × Dict Param)) (net : Mininet)
    → All HasNoIp new
    → net.auto_pin_cpus ≡ false
    → net.next_ip + length new ≤ last_in_subnet net.prefix_len + 1
    → ((net1 : Mininet) × (add_hosts new net ≡ ok net1)
        × (ip_params net1.hosts
            ≡ ip_params net.hosts
              ++ addresses_from net.ip_base_num net.prefix_len net.next_ip (length new))
        × (net1.next_ip ≡ net.next_ip + length new))
      × ((j k : ℕ)
          → j < length new
          → k < length new
          → get_elem? (addresses_from net.ip_base_num net.prefix_len net.next_ip (length new)) j
            ≡ get_elem? (addresses_from net.ip_base_num net.prefix_len net.next_ip (length new)) k
          → j ≡ k)
add_hosts_addresses new net all unpinned room = (
  addresses_given new net all unpinned room,
  λ j k hj hk e.
      addresses_distinct net.ip_base_num net.prefix_len net.next_ip (length new) j k room hj hk e,
)

-- The host after the last address of the subnet is refused with an AssertionError.
add_host_refused :
    (id : ℕ) (name : String) (params : Dict Param) (net : Mininet)
    → last_in_subnet net.prefix_len < net.next_ip
    → add_host id name params net ≡ err assertion_error
unfolding add_host
add_host_refused id name params net h =
    let e = ip_add_refused net.next_ip net.prefix_len net.ip_base_num h in rw e refl
