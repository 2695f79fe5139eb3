-- ===== src/Interfaces/Links.antt =====
-- A link between two nodes (mininet/link.py) and the tables of both.
use faultynet.Shared.{ℕ, ◌≡◌, ◌≢◌, sym, ap, ◌∙◌, none, some, arith}
use mathlib.Core.Path.{subst}
use faultynet.Interfaces.{Tables, End, Store, set_tables, make_link, new_port, new_intf, intf_name}
use faultynet.Interfaces.Loops.{set_here}
use faultynet.Interfaces.Spec.{Wiring, Represents, IsFreeName, attach}
use faultynet.Interfaces.Attached.{attach-Represents, new_port-IsFreePort}

set_there :
    (node other : ℕ) (t : Tables) (store : Store)
    → node ≢ other
    → set_tables node t store other ≡ store other
set_there node other t store apart = ground (arith, apart)

module _ (end1 end2 : End) (i j : ℕ) (store : Store) (apart : end1.node ≢ end2.node) where
  abbrev port1 : ℕ
  port1 = new_port end1.port_base (store end1.node).ports

  abbrev port2 : ℕ
  port2 = new_port end2.port_base (store end2.node).ports

  abbrev linked : Store
  linked = make_link end1 end2 none none none none i j store

  first_tables :
      linked end1.node
      ≡ new_intf end1.port_base i (intf_name end1.node_name port1) (some port1) (store end1.node)
  unfolding make_link
  first_tables = ground (arith, apart)

  second_tables :
      linked end2.node
      ≡ new_intf end2.port_base j (intf_name end2.node_name port2) (some port2) (store end2.node)
  unfolding make_link
  second_tables =
      set_here end2.node _ (set_tables end1.node _ store)
      ∙ ap (new_intf end2.port_base j (intf_name end2.node_name port2) (some port2))
          (set_there end1.node end2.node _ store apart)

  other_tables : (node : ℕ) → node ≢ end1.node → node ≢ end2.node → linked node ≡ store node
  unfolding make_link
  other_tables node one two = ground (arith, one, two)

  -- A link between two nodes, made without ports and names, gives each of them one more interface with
  -- a port and a name of its own, provided that the nodes differ, that their tables represent wirings
  -- in which the interfaces are unknown, and that the canonical names are free. The
  -- tables of no other node change.
  pub make_link-Represents :
      (s1 s2 : Wiring)
      → Represents (store end1.node) s1
      → Represents (store end2.node) s2
      → s1 i ≡ none
      → s2 j ≡ none
      → IsFreeName (intf_name end1.node_name port1) s1
      → IsFreeName (intf_name end2.node_name port2) s2
      → Represents (linked end1.node) (attach i port1 (intf_name end1.node_name port1) s1)
        × Represents (linked end2.node) (attach j port2 (intf_name end2.node_name port2) s2)
        × ((node : ℕ) → node ≢ end1.node → node ≢ end2.node → linked node ≡ store node)
  make_link-Represents s1 s2 r1 r2 new1 new2 free1 free2 =
      let free_port1 = new_port-IsFreePort (store end1.node) s1 r1 end1.port_base in
      let free_port2 = new_port-IsFreePort (store end2.node) s2 r2 end2.port_base in
      let one =
        attach-Represents (store end1.node) s1 r1 i port1 _ new1 free1 free_port1 end1.port_base in
      let two =
        attach-Represents (store end2.node) s2 r2 j port2 _ new2 free2 free_port2 end2.port_base in
      (
        subst (λ t. Represents t (attach i port1 (intf_name end1.node_name port1) s1))
            (sym first_tables) one,
        subst (λ t. Represents t (attach j port2 (intf_name end2.node_name port2) s2))
            (sym second_tables) two,
        other_tables,
      )
