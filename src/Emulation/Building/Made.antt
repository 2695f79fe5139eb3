-- ===== src/Emulation/Building/Made.antt =====
-- The nodes that `buildFromTopo` (mininet/net.py) makes of a topology, before the links.
use mathlib.Core.Logic.Or
use mathlib.Core.List.Perm
use mathlib.Core.List.{Mem, mem-cons_self, mem-cons_of_mem, mem-append}
use faultynet.Shared.{
  ok-injective, ℕ, ◌+◌, ◌≤◌, ◌≡◌, refl, sym, ap, ◌∙◌, String, Bool, true, false, none, List, [],
  ◌∷◌, ◌++◌, Dict, str_eq, eq_iff, Bool-cases, inl, inr, map, length, lookup, ok,
}
use faultynet.Addresses.{last_in_subnet}
use faultynet.Topology.{Topo, NodeInfo}
use faultynet.Topology.Listing.{hosts, switches, links}
use faultynet.Topology.Listing.Nodes.{hosts-switches}
use faultynet.Emulation.{Mininet, Member}
use faultynet.Emulation.Building.{
  Site, Default, link_loop, build_from_topo, host_loop, switch_loop, with_controllers,
}
use faultynet.Emulation.Building.Named.{
  IsNamed, AgreesOnNames, HasOwnIds, names, AreNamed, controlled, with_controllers-controlled,
}
use faultynet.Emulation.Building.Nodes.{Kept, host_loop-names, switch_loop-names}
use mathlib.Core.Path.{subst}

known_listed :
    (n : String) (d : Dict NodeInfo) → (lookup n d ≡ none → ⊥) → Mem n (map (λ (k, _). k) d)
unfolding lookup
known_listed n [] h = absurd (h refl)
known_listed n ((j, v) ∷ d) h = elim (Bool-cases (str_eq j n)) [
  | inl same ↦ rw ((eq_iff j n).0 same) mem-cons_self
  | inr other ↦ mem-cons_of_mem j (known_listed n d (rw other at h))
]

-- The nodes that two loops made are named after them.
listed-IsNamed :
    (n : String) (hs ss : List String) (w0 w1 w2 : Site)
    → Kept w0 w1 hs
    → Kept w1 w2 ss
    → Mem n (hs ++ ss)
    → IsNamed w2.net n
listed-IsNamed n hs ss w0 w1 w2 one two m e =
    Or.elim (λ x y. absurd x) (mem-append.0 m) (λ host. two.still n (one.now n host) e)
      (λ switch. two.now n switch e)

-- The parts of a run, one after the other.
run_of_parts :
    (port_base : Member → ℕ) (is_ovs : Member → Bool) (defaults : List Default) (t : Topo)
    (w w1 w2 w3 : Site) (net0 : Mininet) (hs ss : List String)
    → with_controllers defaults w.net.controllers w.net ≡ net0
    → hosts true t ≡ ok hs
    → host_loop hs t (record w { net = net0 }) ≡ ok w1
    → switches true t ≡ ok ss
    → switch_loop ss t w1 ≡ ok w2
    → link_loop port_base is_ovs (links true false t) w2 ≡ ok w3
    → build_from_topo port_base is_ovs defaults t w ≡ ok w3
unfolding build_from_topo
run_of_parts port_base is_ovs defaults t w w1 w2 w3 net0 hs ss e0 e1 e2 e3 e4 e5 =
    rw (e0, e1, e2, e3, e4) e5

-- The site with the nodes of the topology, and what is left to do.
pub record Made (defaults : List Default) (t : Topo) (w w2 : Site) (hs ss : List String)
    : Type 0 where
  pub listed : switches true t ≡ ok ss
  pub hosts_made : names w2.net.hosts ≡ names w.net.hosts ++ hs
  pub switches_made : names w2.net.switches ≡ names w.net.switches ++ ss
  pub links_left : w2.links ≡ w.links
  pub agrees : AgreesOnNames w2.net
  pub known : (n : String) → (lookup n t.g.node ≡ none → ⊥) → IsNamed w2.net n
  pub own :
      HasOwnIds (record w { net = with_controllers defaults w.net.controllers w.net })
      → HasOwnIds w2
  pub run :
      (port_base : Member → ℕ) (is_ovs : Member → Bool) (w3 : Site)
      → link_loop port_base is_ovs (links true false t) w2 ≡ ok w3
      → build_from_topo port_base is_ovs defaults t w ≡ ok w3

pub nodes-Made :
    (defaults : List Default) (t : Topo) (w : Site) (hs : List String)
    → hosts true t ≡ ok hs
    → AreNamed 0 defaults
    → AgreesOnNames w.net
    → w.net.auto_pin_cpus ≡ false
    → w.net.next_ip + length hs ≤ last_in_subnet w.net.prefix_len + 1
    → (w2 : Site) × (ss : List String) × Made defaults t w w2 hs ss
nodes-Made defaults t w hs listed named agrees unpinned room =
    let (cs, d, controllers, agrees0) =
      with_controllers-controlled defaults w.net.controllers w.net named agrees in
    let w0 : Site = record w { net = controlled cs d w.net } in
    let (hs', ss, listed', listed_ss, are_hosts, are_switches, all, sorted) =
      hosts-switches true t in
    let same : hs' ≡ hs = ok-injective (sym listed' ∙ listed) in
    let (w1, run1, new_hosts, old_switches, kept1) =
      host_loop-names hs t w0 (rw same at are_hosts) unpinned room agrees0 in
    let (w2, run2, new_switches, old_hosts, kept2) =
      switch_loop-names ss t w1 are_switches kept1.agrees in
    (
      w2,
      ss,
      record {
        listed = listed_ss;
        hosts_made = ap names old_hosts ∙ new_hosts;
        switches_made = new_switches ∙ ap (λ l. names l ++ ss) old_switches;
        links_left = kept2.links ∙ kept1.links;
        agrees = kept2.agrees;
        known = λ n h.
            listed-IsNamed n hs ss w0 w1 w2 kept1 kept2
              (rw same at ((Perm.mem_iff all).1 (known_listed n t.g.node h)));
        own = λ h.
            kept2.own (kept1.own (subst (λ net. HasOwnIds (record w { net = net })) controllers h));
        run = λ port_base is_ovs w3 run3.
            run_of_parts port_base is_ovs defaults t w w1 w2 w3 (controlled cs d w.net) hs ss
              controllers listed run1 listed_ss run2 run3;
      },
    )
