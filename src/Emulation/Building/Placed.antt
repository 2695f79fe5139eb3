-- ===== src/Emulation/Building/Placed.antt =====
-- Where the interfaces of a network that `buildFromTopo` (mininet/net.py) makes are found.
use mathlib.Core.Path.{subst}
use mathlib.Core.List.Perm
use mathlib.Core.List.{Mem, Pairwise, Pairwise-cons, mem-cons_self, mem-cons_of_mem}
use faultynet.Shared.{
  ℕ, ◌+◌, ◌≤◌, ◌==◌, ◌≡◌, ◌≢◌, refl, sym, ap, ◌∙◌, String, Bool, true, false, ◌&&◌, none, some,
  List, [], ◌∷◌, ◌++◌, map, length, All, All-append, lookup, at, at-put, ok, inl, inr, Bool-cases,
  ==_iff, arith, ok-injective, if◌then◌else◌,
}
use faultynet.Addresses.{last_in_subnet}
use faultynet.Interfaces.{End, Store, make_link, new_intf, add_intf, set_tables, intf_name}
use faultynet.Topology.{Topo}
use faultynet.Topology.Listing.{Edge, hosts, links}
use faultynet.Topology.Listing.Reading.{links-perm}
use faultynet.Topology.Listing.Built.{IsBuilt-IsEnded}
use faultynet.Topology.Listing.Slots.{
  Slot, slot1, slot2, IsSlot, IsApart, IsPlain, IsPlain-IsBuilt, IsPlain-HasSlots,
}
use faultynet.Emulation.{Member}
use faultynet.Emulation.Building.{
  Site, NetLink, Default, add_link, link_loop, build_from_topo, joined, end_of, with_controllers,
}
use faultynet.Emulation.Building.Named.{IsNamed, AgreesOnNames, HasOwnIds, AreNamed}
use faultynet.Emulation.Building.Nodes.{named_node}
use faultynet.Emulation.Building.Made.{nodes-Made}
use faultynet.Emulation.Building.Complete.{ends_of, edge_ends, link_loop_ends}

-- What an interface puts into the tables of its node at a port that is given.
at-set_tables :
    (end : End) (name : String) (port i node j : ℕ) (store : Store)
    → at j
        (set_tables end.node
          (new_intf end.port_base i name (some port) (store end.node))
          store
          node).intfs
      ≡ (if end.node == node && port == j then some i else at j (store node).intfs)
unfolding new_intf add_intf
at-set_tables end name port i node j store = elim (Bool-cases (end.node == node)) [
  | inl here ↦
      let same = (==_iff end.node node).0 here in
      rw (here, at-put port j i (store end.node).intfs, same) refl
  | inr other ↦ rw other refl
]

-- What a link puts into them.
at-make_link :
    (end1 end2 : End) (port1 port2 i1 i2 node j : ℕ) (store : Store)
    → at j (make_link end1 end2 (some port1) (some port2) none none i1 i2 store node).intfs ≡ (
        if end2.node == node && port2 == j
        then some i2
        else if end1.node == node && port1 == j
        then some i1
        else at j (store node).intfs)
unfolding make_link
at-make_link end1 end2 port1 port2 i1 i2 node j store =
    let name1 = intf_name end1.node_name port1 in
    let name2 = intf_name end2.node_name port2 in
    let t1 = new_intf end1.port_base i1 name1 (some port1) (store end1.node) in
    at-set_tables end2 name2 port2 i2 node j (set_tables end1.node t1 store)
    ∙ ap (λ o. if end2.node == node && port2 == j then some i2 else o)
        (at-set_tables end1 name1 port1 i1 node j store)

-- Each end of the link has its interface at its port.
abbrev pub IsPlaced : Site → NetLink → Type 0
IsPlaced w l =
    (at l.port1 (w.store l.end1.id).intfs ≡ some l.intf1)
    × (at l.port2 (w.store l.end2.id).intfs ≡ some l.intf2)

abbrev slot_of : Member → ℕ → Slot
slot_of m port = (m.name, port)

-- No later link takes the place of this one.
abbrev IsClear : NetLink → Edge → Type 0
IsClear l e = (s : Slot) → IsSlot s e → (s ≢ slot_of l.end1 l.port1) × (s ≢ slot_of l.end2 l.port2)

-- The node is the one under its name.
abbrev IsOwn : Site → Member → Type 0
IsOwn w m = lookup m.name w.net.name_to_node ≡ some m

record IsGood (w : Site) (es : List Edge) (l : NetLink) : Type 0 where
  placed : IsPlaced w l
  known1 : IsOwn w l.end1
  known2 : IsOwn w l.end2
  clear : (e : Edge) → Mem e es → IsClear l e

All-map {ℓ κ κ'} :
    {A : Type ℓ} (P : A → Type κ) (Q : A → Type κ')
    → ((a : A) → P a → Q a)
    → (l : List A) → All P l
    → All Q l
All-map P Q f [] h = tt
All-map P Q f (a ∷ l) h = (f a h.0, All-map P Q f l h.1)

module _ (port_base : Member → ℕ) (is_ovs : Member → Bool) where
  -- The site with the link of an edge.
  abbrev with_link : Member → Member → Edge → Site → Site
  with_link m1 m2 e w = joined port_base is_ovs m1 m2 (some e.info.port1) (some e.info.port2) w

  -- Two slots that differ are not at one node and port.
  not_there :
      (w : Site) (m x : Member) (port j : ℕ)
      → HasOwnIds w
      → IsOwn w m
      → IsOwn w x
      → slot_of m port ≢ slot_of x j
      → (m.id == x.id && port == j) ≡ false
  not_there w m x port j own known_m known_x differ =
      elim (Bool-cases (m.id == x.id && port == j)) [
        | inl both ↦
            let one : m.id ≡ x.id = ground (arith, both) in
            let same_port : port ≡ j = ground (arith, both) in
            let same_name = own.one_name m.name x.name m x known_m known_x one in
            absurd (differ (rw (same_name, same_port) refl))
        | inr other ↦ other
      ]

  -- An end that is not one of the new link's is left as it is.
  end_kept :
      (m1 m2 : Member) (e : Edge) (w : Site) (m : Member) (j i : ℕ)
      → HasOwnIds w
      → IsOwn w m1
      → IsOwn w m2
      → IsOwn w m
      → slot_of m1 e.info.port1 ≢ slot_of m j
      → slot_of m2 e.info.port2 ≢ slot_of m j
      → at j (w.store m.id).intfs ≡ some i
      → at j ((with_link m1 m2 e w).store m.id).intfs ≡ some i
  end_kept m1 m2 e w m j i own known1 known2 known apart1 apart2 held =
      let one = not_there w m1 m e.info.port1 j own known1 known apart1 in
      let two = not_there w m2 m e.info.port2 j own known2 known apart2 in
      at-make_link (end_of port_base is_ovs m1) (end_of port_base is_ovs m2) e.info.port1
        e.info.port2 w.next (w.next + 1) m.id j w.store
      ∙ rw (one, two) held

  -- The new link's own ends.
  ends_placed :
      (m1 m2 : Member) (e : Edge) (w : Site)
      → HasOwnIds w
      → IsOwn w m1
      → IsOwn w m2
      → slot_of m1 e.info.port1 ≢ slot_of m2 e.info.port2
      → (at e.info.port1 ((with_link m1 m2 e w).store m1.id).intfs ≡ some w.next)
        × (at e.info.port2 ((with_link m1 m2 e w).store m2.id).intfs ≡ some (w.next + 1))
  ends_placed m1 m2 e w own known1 known2 differ =
      let end1 = end_of port_base is_ovs m1 in
      let end2 = end_of port_base is_ovs m2 in
      let other =
        not_there w m2 m1 e.info.port2 e.info.port1 own known2 known1 (λ s. differ (sym s)) in
      (
        at-make_link end1 end2 e.info.port1 e.info.port2 w.next (w.next + 1) m1.id e.info.port1
              w.store
            ∙ rw other (ground arith),
        at-make_link end1 end2 e.info.port1 e.info.port2 w.next (w.next + 1) m2.id e.info.port2
              w.store
            ∙ ground arith,
      )

  abbrev new_link : Member → Member → Edge → Site → NetLink
  new_link m1 m2 e w = record {
    id = w.next + 2;
    end1 = m1;
    end2 = m2;
    port1 = e.info.port1;
    port2 = e.info.port2;
    intf1 = w.next;
    intf2 = w.next + 1;
  }

  module _ (m1 m2 : Member) (e : Edge) (es : List Edge) (w : Site) (own : HasOwnIds w)
      (known1 : IsOwn w m1) (known2 : IsOwn w m2) (name1 : m1.name ≡ e.info.node1)
      (name2 : m2.name ≡ e.info.node2) where
    here1 : slot_of m1 e.info.port1 ≡ slot1 e
    here1 = rw name1 refl

    here2 : slot_of m2 e.info.port2 ≡ slot2 e
    here2 = rw name2 refl

    old_IsGood : (l : NetLink) → IsGood w (e ∷ es) l → IsGood (with_link m1 m2 e w) es l
    old_IsGood l g =
        let away1 = g.clear e mem-cons_self (slot1 e) (inl refl) in
        let away2 = g.clear e mem-cons_self (slot2 e) (inr refl) in
        record {
          placed = (
            end_kept m1 m2 e w l.end1 l.port1 l.intf1 own known1 known2 g.known1
                (λ s. away1.0 (sym here1 ∙ s)) (λ s. away2.0 (sym here2 ∙ s)) g.placed.0,
            end_kept m1 m2 e w l.end2 l.port2 l.intf2 own known1 known2 g.known2
                (λ s. away1.1 (sym here1 ∙ s)) (λ s. away2.1 (sym here2 ∙ s)) g.placed.1,
          );
          known1 = g.known1;
          known2 = g.known2;
          clear = λ f m. g.clear f (mem-cons_of_mem e m);
        }

    new_IsGood :
        slot1 e ≢ slot2 e
        → ((f : Edge) → Mem f es → IsApart e f)
        → IsGood (with_link m1 m2 e w) es (new_link m1 m2 e w)
    new_IsGood differ apart = record {
      placed = ends_placed m1 m2 e w own known1 known2 (λ s. differ (sym here1 ∙ s ∙ here2));
      known1 = known1;
      known2 = known2;
      clear = λ f m s is. (
        (λ same. apart f m s (inl (same ∙ here1)) is),
        (λ same. apart f m s (inr (same ∙ here2)) is),
      );
    }

  link_loop-IsPlaced :
      (es : List Edge) (w w1 : Site)
      → AgreesOnNames w.net
      → HasOwnIds w
      → ((e : Edge) → Mem e es → IsNamed w.net e.info.node1 × IsNamed w.net e.info.node2)
      → ((e : Edge) → Mem e es → slot1 e ≢ slot2 e)
      → Pairwise IsApart es
      → All (IsGood w es) w.links
      → link_loop port_base is_ovs es w ≡ ok w1
      → All (IsPlaced w1) w1.links
  unfolding link_loop add_link
  link_loop-IsPlaced [] w w1 agrees own named ends apart good run =
      subst (λ w. All (IsPlaced w) w.links) (ok-injective run)
        (All-map (IsGood w []) (IsPlaced w) (λ l g. g.placed) w.links good)
  link_loop-IsPlaced (e ∷ es) w w1 agrees own named ends apart good run =
      let (named1, named2) = named e mem-cons_self in
      let (m1, found1, name1, held1) = named_node e.info.node1 w.net named1 agrees in
      let (m2, found2, name2, held2) = named_node e.info.node2 w.net named2 agrees in
      let known1 : IsOwn w m1 = rw name1 held1 in
      let known2 : IsOwn w m2 = rw name2 held2 in
      let w' = with_link m1 m2 e w in
      let own' : HasOwnIds w' = record {
        below = λ n m h. omega (arith, own.below n m h);
        one_name = own.one_name;
      } in
      let older =
        All-map (IsGood w (e ∷ es)) (IsGood w' es)
          (old_IsGood m1 m2 e es w own known1 known2 name1 name2) w.links good in
      let newest =
        new_IsGood m1 m2 e es w own known1 known2 name1 name2 (ends e mem-cons_self)
          (Pairwise-cons.0 apart).0 in
      link_loop-IsPlaced es w' w1 agrees own' (λ f m. named f (mem-cons_of_mem e m))
        (λ f m. ends f (mem-cons_of_mem e m)) (Pairwise-cons.0 apart).1
        (All-append (IsGood w' es) w.links (new_link m1 m2 e w ∷ []) older (newest, tt))
        (rw (found1, found2) at run)

-- Of a topology of nodes with names of their own, between which `addLink` chose the ports, an empty
-- network with an address for every host and no cores to assign is made by `buildFromTopo` with the
-- links of the topology, and afterwards each link's interface is found in the table of its node at the
-- port that the topology gave it: no link takes the place of another. Nodes stand under their own
-- names, and no two names have one object.
pub build_from_topo-IsPlaced :
    (port_base : Member → ℕ) (is_ovs : Member → Bool) (defaults : List Default) (t : Topo)
    (w : Site) (hs : List String)
    → hosts true t ≡ ok hs
    → IsPlain t
    → AreNamed 0 defaults
    → AgreesOnNames w.net
    → HasOwnIds (record w { net = with_controllers defaults w.net.controllers w.net })
    → w.net.auto_pin_cpus ≡ false
    → w.net.next_ip + length hs ≤ last_in_subnet w.net.prefix_len + 1
    → w.links ≡ []
    → (w1 : Site) × (build_from_topo port_base is_ovs defaults t w ≡ ok w1)
      × (map ends_of w1.links ≡ map edge_ends (links true false t))
      × All (IsPlaced w1) w1.links
build_from_topo-IsPlaced port_base is_ovs defaults t w hs listed plain named agrees own unpinned
      room empty =
    let (w2, ss, made) = nodes-Made defaults t w hs listed named agrees unpinned room in
    let perm = links-perm true false t in
    let slots = IsPlain-HasSlots plain in
    let none_yet : w2.links ≡ [] = made.links_left ∙ empty in
    let known : (e : Edge)
        → Mem e (links true false t)
        → IsNamed w2.net e.info.node1 × IsNamed w2.net e.info.node2 =
      λ e m.
        let (one, two) = IsBuilt-IsEnded (IsPlain-IsBuilt plain) e ((Perm.mem_iff perm).0 m) in
        (made.known e.info.node1 one, made.known e.info.node2 two) in
    let (w3, run, ends, last) =
      link_loop_ends port_base is_ovs (links true false t) w2 made.agrees known in
    (
      w3,
      made.run port_base is_ovs w3 run,
      ends ∙ ap (λ l. map ends_of l ++ map edge_ends (links true false t)) none_yet,
      link_loop-IsPlaced port_base is_ovs (links true false t) w2 w3 made.agrees (made.own own)
          known (λ e m. slots.ends e ((Perm.mem_iff perm).0 m))
          (Perm.pairwise {R = IsApart} (λ e f. hlevel) (λ e f r s one two. r s two one)
            (Perm.symm perm) slots.apart)
          (subst (All (IsGood w2 (links true false t))) (sym none_yet) tt) run,
    )
