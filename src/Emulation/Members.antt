-- ===== src/Emulation/Members.antt =====
-- Hosts that are added to a network and removed from it (mininet/net.py).
use faultynet.Shared.{
  ℕ, ◌+◌, ◌≤◌, ◌≡◌, ap, ◌∙◌, String, str_eq, eq_iff, false, true, Option, none, some, List, [], ◌∷◌,
  ◌++◌, Dict, lookup, lookup-insert, lookup-erase, ok, arith,
}
use faultynet.Addresses.{ip_str, last_in_subnet, network_of}
use faultynet.Addresses.Subnets.{ip_add_fits}
use faultynet.Emulation.{
  Mininet, Member, Param, hosted, add_host, has_member, remove_member, drop_host, remove_host,
  update, host_defaults,
}
use faultynet.Emulation.Hosts.{add_host-hosted}

remove-snoc :
    (ms : List Member) (m : Member)
    → has_member m.id ms ≡ false
    → remove_member m.id (ms ++ (m ∷ [])) ≡ ms
unfolding remove_member
remove-snoc [] m h = ground arith
remove-snoc (x ∷ ms) m h = ground (arith, h, remove-snoc ms m)

removed :
    (name : String) (net : Mininet) (o : Option Member)
    → lookup name net.name_to_node ≡ o
    → remove_host name net ≡ drop_host name net o
unfolding remove_host
removed name net o e = ap (drop_host name net) e

-- A host that is added under a new name, where an address is left and cores are not assigned, is removed
-- again by this name: the hosts are those of before and every name means what it meant before. Only
-- the address is used up.
remove-add_host :
    (id : ℕ) (name : String) (params : Dict Param) (net : Mininet)
    → net.auto_pin_cpus ≡ false
    → net.next_ip ≤ last_in_subnet net.prefix_len
    → lookup name net.name_to_node ≡ none
    → has_member id net.hosts ≡ false
    → (net1 : Mininet) × (add_host id name params net ≡ ok net1)
      × ((remove_host name net1).0 ≡ true)
      × ((remove_host name net1).1.hosts ≡ net.hosts)
      × ((n : String) → lookup n (remove_host name net1).1.name_to_node ≡ lookup n net.name_to_node)
      × ((remove_host name net1).1.next_ip ≡ net.next_ip + 1)
remove-add_host id name params net unpinned room unknown new =
    let address = ip_str (network_of net.prefix_len net.ip_base_num + net.next_ip) in
    let net1 = hosted id name params net address net.next_core in
    let h : Member = record {
      id = id;
      name = name;
      params = update (host_defaults address net) params;
    } in
    let same_name : str_eq name name ≡ true = ground (arith, eq_iff name name) in
    let found =
      removed name net1 (some h)
        (lookup-insert name name h net.name_to_node ∙ ground (arith, same_name)) in
    (
      net1,
      add_host-hosted id name params address net unpinned
          (ip_add_fits net.next_ip net.prefix_len net.ip_base_num room),
      ap (λ r. r.0) found,
      ap (λ r. r.1.hosts) found ∙ remove-snoc net.hosts h new,
      λ n.
          ap (λ r. lookup n r.1.name_to_node) found
          ∙ ground (
            arith,
            lookup-erase name n net1.name_to_node,
            lookup-insert name n h net.name_to_node,
            eq_iff name n,
            unknown,
          ),
      ap (λ r. r.1.next_ip) found,
    )
