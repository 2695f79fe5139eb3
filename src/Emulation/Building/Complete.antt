-- ===== src/Emulation/Building/Complete.antt =====
-- The network that `buildFromTopo` (mininet/net.py) makes of a topology.

use mathlib.Core.List.Perm
use mathlib.Core.List.{Mem, mem-cons_self, mem-cons_of_mem}
use faultynet.Shared.{
  ℕ, ◌+◌, ◌≤◌, ◌≡◌, refl, sym, ap, ◌∙◌, String, Bool, true, false, some, List, [], ◌∷◌, ◌++◌,
  append_nil, map, length, ok,
}
use faultynet.Addresses.{last_in_subnet}
use faultynet.Topology.{Topo}
use faultynet.Topology.Listing.{Edge, hosts, switches, links}
use faultynet.Topology.Listing.Reading.{links-perm}
use faultynet.Topology.Listing.Built.{IsBuilt, IsBuilt-IsEnded}
use faultynet.Emulation.{Member}
use faultynet.Emulation.Building.{
  Site, NetLink, Default, add_link, link_loop, build_from_topo, joined,
}
use faultynet.Emulation.Building.Named.{IsNamed, AgreesOnNames, names, AreNamed}
use faultynet.Emulation.Building.Nodes.{named_node}
use faultynet.Emulation.Building.Made.{nodes-Made}

-- The names of the ends of a link, each with its port.
abbrev pub Ends : Type 0
Ends = (String × ℕ) × (String × ℕ)

abbrev pub ends_of : NetLink → Ends
ends_of l = ((l.end1.name, l.port1), (l.end2.name, l.port2))

abbrev pub edge_ends : Edge → Ends
edge_ends e = ((e.info.node1, e.info.port1), (e.info.node2, e.info.port2))

ends-snoc :
    (ls : List NetLink) (l : NetLink) (x : Ends) (rest : List Ends)
    → ends_of l ≡ x
    → map ends_of (ls ++ (l ∷ [])) ++ rest ≡ map ends_of ls ++ (x ∷ rest)
ends-snoc [] l x rest e = ap (λ y. y ∷ rest) e
ends-snoc (k ∷ ls) l x rest e = ap (λ r. ends_of k ∷ r) (ends-snoc ls l x rest e)

module _ (port_base : Member → ℕ) (is_ovs : Member → Bool) where
  pub link_loop_ends :
      (es : List Edge) (w : Site)
      → AgreesOnNames w.net
      → ((e : Edge) → Mem e es → IsNamed w.net e.info.node1 × IsNamed w.net e.info.node2)
      → (w1 : Site) × (link_loop port_base is_ovs es w ≡ ok w1)
        × (map ends_of w1.links ≡ map ends_of w.links ++ map edge_ends es)
        × (w1.net ≡ w.net)
  unfolding link_loop add_link
  link_loop_ends [] w agrees named = (w, refl, sym (append_nil (map ends_of w.links)), refl)
  link_loop_ends (e ∷ es) w agrees named =
      let (named1, named2) = named e (mem-cons_self) in
      let (m1, found1, name1, _) = named_node e.info.node1 w.net named1 agrees in
      let (m2, found2, name2, _) = named_node e.info.node2 w.net named2 agrees in
      let w' = joined port_base is_ovs m1 m2 (some e.info.port1) (some e.info.port2) w in
      let (w1, run, ends, same) =
        link_loop_ends es w' agrees (λ x m. named x (mem-cons_of_mem e m)) in
      (
        w1,
        rw (found1, found2) run,
        ends ∙ ends-snoc w.links _ _ (map edge_ends es) (rw (name1, name2) refl),
        same,
      )

-- Where the subnet has an address for every host, cores are not assigned and nodes stand under their own
-- names, `buildFromTopo` succeeds on every topology that `addHost`, `addSwitch` and `addLink` made: it
-- adds the hosts and the switches of the topology in the order in which it lists them, and one link for
-- each that it lists, between the nodes and at the ports that its info names.
pub build_from_topo_complete :
    (port_base : Member → ℕ) (is_ovs : Member → Bool) (defaults : List Default) (t : Topo)
    (w : Site) (hs : List String)
    → hosts true t ≡ ok hs
    → IsBuilt t
    → AreNamed 0 defaults
    → AgreesOnNames w.net
    → w.net.auto_pin_cpus ≡ false
    → w.net.next_ip + length hs ≤ last_in_subnet w.net.prefix_len + 1
    → (w1 : Site) × (ss : List String) × (build_from_topo port_base is_ovs defaults t w ≡ ok w1)
      × (switches true t ≡ ok ss)
      × (names w1.net.hosts ≡ names w.net.hosts ++ hs)
      × (names w1.net.switches ≡ names w.net.switches ++ ss)
      × (map ends_of w1.links ≡ map ends_of w.links ++ map edge_ends (links true false t))
build_from_topo_complete port_base is_ovs defaults t w hs listed built named agrees unpinned room =
    let (w2, ss, made) = nodes-Made defaults t w hs listed named agrees unpinned room in
    let (w3, run, ends, last) =
      link_loop_ends port_base is_ovs (links true false t) w2 made.agrees (λ e m.
        let (one, two) = IsBuilt-IsEnded built e ((Perm.mem_iff (links-perm true false t)).0 m) in
        (made.known e.info.node1 one, made.known e.info.node2 two)) in
    (
      w3,
      ss,
      made.run port_base is_ovs w3 run,
      made.listed,
      ap (λ n. names n.hosts) last ∙ made.hosts_made,
      ap (λ n. names n.switches) last ∙ made.switches_made,
      ends ∙ ap (λ l. map ends_of l ++ map edge_ends (links true false t)) made.links_left,
    )
