-- ===== src/Emulation/Building.antt =====
-- mininet/net.py: `buildFromTopo`, which makes the nodes and the links that a topology lists, with what
-- it uses of a node (the port at which its interfaces begin, and whether it is an `OVSSwitch`). What
-- the classes of the nodes and of the links do besides is left out.
pub mod Named
pub mod Nodes
pub mod Made
pub mod Complete
pub mod Placed
use faultynet.Shared.{
  ℕ, ◌+◌, String, Bool, true, false, Option, none, some, List, [], ◌∷◌, ◌++◌, map, cat, show_ℕ,
  Dict, lookup, Result, ok, err, key_error, ◌>>=◌, if◌then◌else◌,
}
use faultynet.Topology.{Topo, NodeInfo}
use faultynet.Topology.Listing.{Edge, hosts, switches, links, node_info}
use faultynet.Interfaces.{Store, End, port_or, new_port, make_link}
use faultynet.Emulation.{Mininet, Member, Param, text, flag, add_host, add_switch, add_controller}

pub record NetLink : Type 0 where
  pub id : ℕ
  pub end1 : Member
  pub end2 : Member
  pub port1 : ℕ
  pub port2 : ℕ
  pub intf1 : ℕ
  pub intf2 : ℕ

-- The network with the tables of its nodes, and the number for the next object. `attached` are the
-- interfaces that `attach` was called with, each with its switch.
pub record Site : Type 0 where
  pub net : Mininet
  pub links : List NetLink
  pub store : Store
  pub next : ℕ
  pub attached : List (ℕ × ℕ)

-- The controllers of `self.controller`: an instance, or what a class returns.
pub data Default : Type 0 where
  instance_of : Member → Default
  made : Option Member → Default

unfoldable pub add_defaults : ℕ → List Default → Mininet → Mininet
unfolding add_controller cat show_ℕ
add_defaults i [] net = net
add_defaults i (instance_of c ∷ cs) net =
    add_defaults (i + 1) cs (add_controller c.name (some c) net)
add_defaults i (made c ∷ cs) net =
    add_defaults (i + 1) cs (add_controller (cat ("c" ∷ show_ℕ i ∷ [])) c net)

-- `if not self.controllers and self.controller`
abbrev pub with_controllers : List Default → List Member → Mininet → Mininet
with_controllers defaults [] net = add_defaults 0 defaults net
with_controllers defaults (c ∷ cs) net = net

-- `**topo.nodeInfo( name )`
abbrev pub params_of : NodeInfo → Dict Param
params_of info =
    (if info.is_switch then ("isSwitch", flag true) ∷ [] else [])
    ++ map (λ (k, v). (k, text v)) info.opts

unfoldable pub host_loop : List String → Topo → Site → Result Site
unfolding node_info add_host
host_loop [] t w = ok w
host_loop (n ∷ ns) t w = node_info n t >>= λ info.
    add_host w.next n (params_of info) w.net >>= λ net.
    host_loop ns t (record w { net = net; next = w.next + 1 })

unfoldable pub switch_loop : List String → Topo → Site → Result Site
unfolding node_info add_switch
switch_loop [] t w = ok w
switch_loop (n ∷ ns) t w = node_info n t >>= λ info.
    switch_loop ns t
      (record w { net = add_switch w.next n (params_of info) w.net; next = w.next + 1 })

-- `self[ name ]`
unfoldable pub get_node : String → Mininet → Result Member
unfolding lookup
get_node n net = elim (lookup n net.name_to_node) [ none ↦ err key_error | some m ↦ ok m ]

module _ (port_base : Member → ℕ) (is_ovs : Member → Bool) where
  abbrev pub end_of : Member → End
  end_of m = record { node = m.id; node_name = m.name; port_base = port_base m }

  abbrev pub attach_ovs : Member → ℕ → List (ℕ × ℕ)
  attach_ovs m intf = if is_ovs m then (m.id, intf) ∷ [] else []

  -- The link between two nodes, its ports and interfaces.
  abbrev pub joined : Member → Member → Option ℕ → Option ℕ → Site → Site
  joined m1 m2 port1 port2 w =
      let i = w.next in
      let link : NetLink = record {
        id = w.next + 2;
        end1 = m1;
        end2 = m2;
        port1 = port_or port1 (new_port (port_base m1) (w.store m1.id).ports);
        port2 = port_or port2 (new_port (port_base m2) (w.store m2.id).ports);
        intf1 = i;
        intf2 = i + 1;
      } in
      record w {
        links = w.links ++ (link ∷ []);
        store = make_link (end_of m1) (end_of m2) port1 port2 none none i (i + 1) w.store;
        next = w.next + 3;
        attached = w.attached ++ (attach_ovs m1 i ++ attach_ovs m2 (i + 1));
      }

  -- `addLink`, of names
  unfoldable pub add_link : String → String → Option ℕ → Option ℕ → Site → Result Site
  unfolding get_node new_port make_link
  add_link node1 node2 port1 port2 w =
      get_node node1 w.net >>= λ m1. get_node node2 w.net >>= λ m2. ok (joined m1 m2 port1 port2 w)

  unfoldable pub link_loop : List Edge → Site → Result Site
  unfolding add_link
  link_loop [] w = ok w
  link_loop (e ∷ es) w =
      add_link e.info.node1 e.info.node2 (some e.info.port1) (some e.info.port2) w >>= link_loop es

  -- `buildFromTopo`
  unfoldable pub build_from_topo : List Default → Topo → Site → Result Site
  unfolding add_defaults hosts switches links host_loop switch_loop link_loop
  build_from_topo defaults t w =
      let w0 = record w { net = with_controllers defaults w.net.controllers w.net } in
      hosts true t >>= λ hs. host_loop hs t w0 >>= λ w1.
      switches true t >>= λ ss. switch_loop ss t w1 >>= λ w2. link_loop (links true false t) w2
