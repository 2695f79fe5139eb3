-- ===== src/Emulation/Building/Nodes.antt =====
-- The loops of `buildFromTopo` (mininet/net.py) over the hosts and the switches.
use mathlib.Core.Logic.Or
use mathlib.Core.List.{Mem, mem-cons, not-mem-nil}
use faultynet.Shared.{
  ◌+◌, ◌≤◌, ◌≡◌, refl, sym, ◌∙◌, String, Bool, true, false, some, List, [], ◌∷◌, ◌++◌, append_nil,
  length, All, lookup, Option-cases, inl, inr, ok, arith,
}
use faultynet.Addresses.{ip_str, last_in_subnet, network_of}
use faultynet.Addresses.Subnets.{ip_add_fits}
use faultynet.Topology.{Topo, NodeInfo, is_switch}
use faultynet.Topology.Listing.{node_info}
use faultynet.Topology.Listing.Nodes.{IsKind}
use faultynet.Emulation.{Mininet, Member, hosted, add_switch}
use faultynet.Emulation.Hosts.{add_host-hosted}
use faultynet.Emulation.Building.{Site, params_of, host_loop, switch_loop, get_node}
use faultynet.Emulation.Building.Named.{
  IsNamed, AgreesOnNames, HasOwnIds, names, names-snoc, insert-IsNamed, insert-IsNamed_self,
  insert-agrees, insert-HasOwnIds,
}

kind-info :
    (s : Bool) (n : String) (t : Topo)
    → IsKind s t n
    → (info : NodeInfo) × (node_info n t ≡ ok info)
unfolding is_switch node_info
kind-info s n t h = elim (Option-cases (lookup n t.g.node)) [
  | inl missing ↦ absurd (ground (arith, h, missing))
  | inr (info, found) ↦ (info, rw found refl)
]

-- What a loop over the names of new nodes leaves: nothing that was there is lost.
pub record Kept (old new : Site) (ns : List String) : Type 0 where
  pub links : new.links ≡ old.links
  pub agrees : AgreesOnNames new.net
  pub still : (n : String) → IsNamed old.net n → IsNamed new.net n
  pub now : (n : String) → Mem n ns → IsNamed new.net n
  pub own : HasOwnIds old → HasOwnIds new

Kept-cons :
    (old mid new : Site) (n : String) (ns : List String)
    → mid.links ≡ old.links
    → ((k : String) → IsNamed old.net k → IsNamed mid.net k)
    → IsNamed mid.net n
    → (HasOwnIds old → HasOwnIds mid)
    → Kept mid new ns
    → Kept old new (n ∷ ns)
Kept-cons old mid new n ns same grows named owned k = record {
  own = λ h. k.own (owned h);
  links = k.links ∙ same;
  agrees = k.agrees;
  still = λ j h. k.still j (grows j h);
  now = λ j m e.
      Or.elim (λ x y. absurd x) (mem-cons.0 m) (λ (here : j ≡ n). k.still n named (rw here at e))
        (λ there. k.now j there e);
}

-- The site with one more host.
abbrev hosted_site : String → String → NodeInfo → Site → Site
hosted_site n address info w = record w {
  net = hosted w.next n (params_of info) w.net address w.net.next_core;
  next = w.next + 1;
}

pub host_loop-names :
    (ns : List String) (t : Topo) (w : Site)
    → All (IsKind false t) ns
    → w.net.auto_pin_cpus ≡ false
    → w.net.next_ip + length ns ≤ last_in_subnet w.net.prefix_len + 1
    → AgreesOnNames w.net
    → (w1 : Site) × (host_loop ns t w ≡ ok w1)
      × (names w1.net.hosts ≡ names w.net.hosts ++ ns)
      × (w1.net.switches ≡ w.net.switches)
      × Kept w w1 ns
unfolding host_loop
host_loop-names [] t w kinds unpinned room agrees = (
  w,
  refl,
  sym (append_nil (names w.net.hosts)),
  refl,
  record {
    links = refl;
    agrees = agrees;
    still = λ n h. h;
    now = λ n m. absurd (not-mem-nil m);
    own = λ h. h;
  },
)
host_loop-names (n ∷ ns) t w kinds unpinned room agrees =
    let (info, found) = kind-info false n t kinds.0 in
    let address = ip_str (network_of w.net.prefix_len w.net.ip_base_num + w.net.next_ip) in
    let given =
      ip_add_fits w.net.next_ip w.net.prefix_len w.net.ip_base_num (omega (arith, room)) in
    let added = add_host-hosted w.next n (params_of info) address w.net unpinned given in
    let w' = hosted_site n address info w in
    let agrees' = insert-agrees n _ w.net.name_to_node refl agrees in
    let (w1, run, hosts, switches, kept) =
      host_loop-names ns t w' kinds.1 unpinned (omega (arith, room)) agrees' in
    (
      w1,
      rw (found, added) run,
      hosts ∙ names-snoc w.net.hosts _ ns,
      switches,
      Kept-cons w w' w1 n ns refl (λ j h. insert-IsNamed n j _ w.net.name_to_node h)
          (insert-IsNamed_self n _ w.net.name_to_node) (insert-HasOwnIds n _ w w' refl refl refl)
          kept,
    )

-- The site with one more switch.
abbrev switched_site : String → NodeInfo → Site → Site
switched_site n info w = record w {
  net = add_switch w.next n (params_of info) w.net;
  next = w.next + 1;
}

pub switch_loop-names :
    (ns : List String) (t : Topo) (w : Site)
    → All (IsKind true t) ns
    → AgreesOnNames w.net
    → (w1 : Site) × (switch_loop ns t w ≡ ok w1)
      × (names w1.net.switches ≡ names w.net.switches ++ ns)
      × (w1.net.hosts ≡ w.net.hosts)
      × Kept w w1 ns
unfolding switch_loop add_switch
switch_loop-names [] t w kinds agrees = (
  w,
  refl,
  sym (append_nil (names w.net.switches)),
  refl,
  record {
    links = refl;
    agrees = agrees;
    still = λ n h. h;
    now = λ n m. absurd (not-mem-nil m);
    own = λ h. h;
  },
)
switch_loop-names (n ∷ ns) t w kinds agrees =
    let (info, found) = kind-info true n t kinds.0 in
    let w' = switched_site n info w in
    let agrees' = insert-agrees n _ w.net.name_to_node refl agrees in
    let (w1, run, switches, hosts, kept) = switch_loop-names ns t w' kinds.1 agrees' in
    (
      w1,
      rw found run,
      switches ∙ names-snoc w.net.switches _ ns,
      hosts,
      Kept-cons w w' w1 n ns refl (λ j h. insert-IsNamed n j _ w.net.name_to_node h)
          (insert-IsNamed_self n _ w.net.name_to_node) (insert-HasOwnIds n _ w w' refl refl refl)
          kept,
    )

pub named_node :
    (n : String) (net : Mininet)
    → IsNamed net n
    → AgreesOnNames net
    → (m : Member) × (get_node n net ≡ ok m) × (m.name ≡ n) × (lookup n net.name_to_node ≡ some m)
unfolding get_node
named_node n net named agrees = elim (Option-cases (lookup n net.name_to_node)) [
  | inl missing ↦ absurd (named missing)
  | inr (m, found) ↦ (m, rw (get_node, found) refl, agrees n m found, found)
]
