-- ===== src/Interfaces/Attached.antt =====
-- The tables of a node (mininet/node.py) after an interface is added at a free port.
use faultynet.Shared.{
  ℕ, ◌+◌, ◌<◌, ◌==◌, ◌≡◌, inl, inr, String, str_eq, eq_iff, none, some, [], ◌∷◌, lookup, at, at-put,
  Numbered, lookup-insert, arith, Bool-cases,
}
use faultynet.Interfaces.{Tables, largest, new_port, new_intf, add_intf}
use faultynet.Interfaces.Spec.{Wiring, attach, Represents, IsFreePort, IsFreeName}

at-le-largest : (d : Numbered ℕ) (i p : ℕ) → at i d ≡ some p → p < largest d + 1
unfolding at largest
at-le-largest [] i p h = absurd cc
at-le-largest ((j, q) ∷ d) i p h = ground (arith, at-le-largest d i p)

new_port-lt :
    (port_base : ℕ) (d : Numbered ℕ) (i p : ℕ) → at i d ≡ some p → p < new_port port_base d
unfolding new_port at
new_port-lt port_base [] i p h = absurd cc
new_port-lt port_base ((j, q) ∷ d) i p h = at-le-largest ((j, q) ∷ d) i p h

module _ (t : Tables) (s : Wiring) (r : Represents t s) (i p : ℕ) (n : String) (new : s i ≡ none)
    (free_name : IsFreeName n s) (free_port : IsFreePort p s) where
  attach_wired :
      (port_base j q : ℕ) (m : String)
      → attach i p n s j ≡ some (q, m)
      → (at j (new_intf port_base i n (some p) t).ports ≡ some q)
        × ((new_intf port_base i n (some p) t).name_of j ≡ m)
        × (at q (new_intf port_base i n (some p) t).intfs ≡ some j)
        × (lookup m (new_intf port_base i n (some p) t).name_to_intf ≡ some j)
  unfolding new_intf add_intf
  attach_wired port_base j q m e = ground (
    arith,
    at-put i j p t.ports,
    at-put p q i t.intfs,
    eq_iff n m,
    lookup-insert n m i t.name_to_intf,
    r.wired j q m,
    free_name j q m,
    free_port j q m,
  )

  attach_by_port :
      (port_base q j : ℕ)
      → at q (new_intf port_base i n (some p) t).intfs ≡ some j
      → (m : String) × (attach i p n s j ≡ some (q, m))
  unfolding new_intf add_intf
  attach_by_port port_base q j e = elim (Bool-cases (p == q)) [
    | inl same ↦ (n, ground (arith, at-put p q i t.intfs, same, e))
    | inr other ↦
        let old : at q t.intfs ≡ some j = ground (arith, at-put p q i t.intfs, other, e) in
        let (m, held) = r.by_port q j old in (m, ground (arith, held, new))
  ]

  attach_by_name :
      (port_base : ℕ) (m : String) (j : ℕ)
      → lookup m (new_intf port_base i n (some p) t).name_to_intf ≡ some j
      → (q : ℕ) × (attach i p n s j ≡ some (q, m))
  unfolding new_intf add_intf
  attach_by_name port_base m j e = elim (Bool-cases (str_eq n m)) [
    | inl same ↦ (p, ground (arith, eq_iff n m, lookup-insert n m i t.name_to_intf, same, e))
    | inr other ↦
        let old : lookup m t.name_to_intf ≡ some j =
          ground (arith, eq_iff n m, lookup-insert n m i t.name_to_intf, other, e) in
        let (q, held) = r.by_name m j old in (q, ground (arith, held, new))
  ]

  attach_by_intf :
      (port_base j q : ℕ)
      → at j (new_intf port_base i n (some p) t).ports ≡ some q
      → (m : String) × (attach i p n s j ≡ some (q, m))
  unfolding new_intf add_intf
  attach_by_intf port_base j q e = elim (Bool-cases (i == j)) [
    | inl same ↦ (n, ground (arith, at-put i j p t.ports, same, e))
    | inr other ↦
        let old : at j t.ports ≡ some q = ground (arith, at-put i j p t.ports, other, e) in
        let (m, held) = r.by_intf j q old in (m, ground (arith, other, held))
  ]

  pub attach-Represents :
      (port_base : ℕ) → Represents (new_intf port_base i n (some p) t) (attach i p n s)
  attach-Represents port_base = record {
    wired = attach_wired port_base;
    by_port = attach_by_port port_base;
    by_name = attach_by_name port_base;
    by_intf = attach_by_intf port_base;
  }

pub new_port-IsFreePort :
    (t : Tables) (s : Wiring)
    → Represents t s
    → (port_base : ℕ) → IsFreePort (new_port port_base t.ports) s
new_port-IsFreePort t s r port_base i p n held same =
    let lt = new_port-lt port_base t.ports i p (r.wired i p n held).0 in omega (arith, lt, same)
