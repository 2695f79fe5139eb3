-- ===== src/Interfaces/Loops.antt =====
-- Ports that two interfaces of one node share (mininet/node.py, mininet/link.py).
use faultynet.Shared.{
  ℕ, ◌≡◌, ◌≢◌, ap, ◌∙◌, some, none, lookup, insert, put, erase, remove, lookup-insert, at, at-put,
  at-remove, String, eq_iff, err, ok, key_error, ◌>>=◌, arith,
}
use faultynet.Interfaces.{
  Tables, new_intf, add_intf, del_intf, new_port, End, Store, set_tables, make_link,
}

module _ (i p k : ℕ) (t : Tables) (port : at i t.ports ≡ some p) where
  del_intf-found :
      (l : ℕ) (n : String)
      → t.name_of i ≡ n
      → at p t.intfs ≡ some k
      → lookup n t.name_to_intf ≡ some l
      → del_intf i t
        ≡ ok (record t {
          intfs = remove p t.intfs;
          ports = remove i t.ports;
          name_to_intf = erase n t.name_to_intf;
        })
  unfolding del_intf
  del_intf-found l n named found known = ground (arith, port, named, found, known)

  del_intf-lost : at p t.intfs ≡ none → del_intf i t ≡ err key_error
  unfolding del_intf
  del_intf-lost lost = ground (arith, port, lost)

module _ (port_base p i j : ℕ) (m n : String) (t : Tables) (other : i ≢ j) (names : m ≢ n) where
  -- Two interfaces at one port.
  abbrev both : Tables
  both = new_intf port_base j n (some p) (new_intf port_base i m (some p) t)

  abbrev first_deleted : Tables
  first_deleted = record both {
    intfs = remove p both.intfs;
    ports = remove i both.ports;
    name_to_intf = erase m both.name_to_intf;
  }

  ports_both : (at i both.ports ≡ some p) × (at j both.ports ≡ some p) × (at p both.intfs ≡ some j)
  unfolding new_intf add_intf
  ports_both = (
    ground (arith, at-put j i p (put i p t.ports), at-put i i p t.ports),
    ground (arith, at-put j j p (put i p t.ports)),
    ground (arith, at-put p p j (put p i t.intfs)),
  )

  names_both : (both.name_of i ≡ m) × (lookup m both.name_to_intf ≡ some i)
  unfolding new_intf add_intf
  names_both = (
    ground (arith, other),
    ground (
      arith,
      names,
      other,
      eq_iff n m,
      eq_iff m m,
      lookup-insert n m j (insert m i t.name_to_intf),
      lookup-insert m m i t.name_to_intf,
    ),
  )

  delete_first : del_intf i both ≡ ok first_deleted
  delete_first = del_intf-found i p j both ports_both.0 i m names_both.0 ports_both.2 names_both.1

  delete_second : del_intf j first_deleted ≡ err key_error
  delete_second =
      del_intf-lost j p i first_deleted
        (ground (arith, other, at-remove i j both.ports, ports_both))
        (ground (arith, at-remove p p both.intfs))

pub set_here : (node : ℕ) (t : Tables) (store : Store) → set_tables node t store node ≡ t
set_here node t store = ground arith

loop_tables :
    (end : End) (i j : ℕ) (m n : String) (store : Store) (other : i ≢ j) (names : m ≢ n)
    → make_link end end none none (some m) (some n) i j store end.node
      ≡ both end.port_base
          (new_port end.port_base (store end.node).ports)
          i
          j
          m
          n
          (store end.node)
          other
          names
unfolding make_link
loop_tables end i j m n store other names =
    let p = new_port end.port_base (store end.node).ports in
    let t1 = new_intf end.port_base i m (some p) (store end.node) in
    set_here end.node _ (set_tables end.node t1 store)
    ∙ ap (new_intf end.port_base j n (some p)) (set_here end.node t1 store)

-- A link between a node and itself that is made with two different names and without ports gives both
-- of its interfaces one port. Deleting the first interface removes the port's entry, which is the
-- second's, and deleting the second then raises a KeyError.
make_link_shares_port :
    (end : End) (i j : ℕ) (m n : String) (store : Store)
    → i ≢ j
    → m ≢ n
    → (at i (make_link end end none none (some m) (some n) i j store end.node).ports
        ≡ some (new_port end.port_base (store end.node).ports))
      × (at j (make_link end end none none (some m) (some n) i j store end.node).ports
          ≡ some (new_port end.port_base (store end.node).ports))
      × ((del_intf i (make_link end end none none (some m) (some n) i j store end.node) >>= λ t1.
            del_intf j t1)
          ≡ err key_error)
make_link_shares_port end i j m n store other names =
    let t = store end.node in
    let p = new_port end.port_base t.ports in
    let (one, two, _) = ports_both end.port_base p i j m n t other names in
    let e = loop_tables end i j m n store other names in
    (
      ap (λ t1. at i t1.ports) e ∙ one,
      ap (λ t1. at j t1.ports) e ∙ two,
      ap (λ t1. del_intf i t1 >>= del_intf j) e
          ∙ ap (λ r. r >>= del_intf j) (delete_first end.port_base p i j m n t other names)
          ∙ delete_second end.port_base p i j m n t other names,
    )
