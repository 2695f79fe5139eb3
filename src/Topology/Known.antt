-- ===== src/Topology/Known.antt =====
-- The nodes of a topology stay in it, and a link between two of them can always be added.
use faultynet.Topology.Ports.{added, linked, base_of}
use faultynet.Shared.{
  length, [], ℕ, ◌+◌, ◌≡◌, refl, ok, none, some, Option, lookup, insert, lookup-insert, String,
  str_eq, eq_iff, Dict, Bool, Bool-cases, inl, inr,
}
use faultynet.Topology.{
  Opts, opts_or, LinkInfo, MultiGraph, no_info, Topo, setdefault, add_node, add_host, add_switch,
  add_edge, is_switch, ports_of, add_link,
}
use faultynet.Topology.Trees.{join}

abbrev pub IsIn {ℓ} : {V : Type ℓ} → String → Dict V → Type ℓ
IsIn {V} n d = (v : V) × (lookup n d ≡ some v)

insert-IsIn {ℓ} :
    {V : Type ℓ} (n k : String) (v : V) (d : Dict V) → IsIn n d → IsIn n (insert k v d)
insert-IsIn n k v d (w, h) = elim (Bool-cases (str_eq k n)) [
  | inl same ↦ (v, rw (lookup-insert k n v d, same) refl)
  | inr other ↦ (w, rw (lookup-insert k n v d, other) h)
]

insert-IsIn_self {ℓ} : {V : Type ℓ} (k : String) (v : V) (d : Dict V) → IsIn k (insert k v d)
insert-IsIn_self k v d =
    let same = (eq_iff k k).1 refl in (v, rw (lookup-insert k k v d, same) refl)

setdefault-IsIn {ℓ} :
    {V : Type ℓ} (n k : String) (v : V) (d : Dict V) → IsIn n d → IsIn n (setdefault k v d)
unfolding setdefault
setdefault-IsIn n k v d h =
    elim (lookup k d) as (λ o. IsIn n (elim o [ none ↦ insert k v d | some _ ↦ d ])) [
      | none ↦ insert-IsIn n k v d h
      | some w ↦ h
    ]

abbrev pub IsKnown : String → Topo → Type 0
IsKnown n t = IsIn n t.g.node

-- Every node of the first is one of the second.
abbrev pub IsGrown : Topo → Topo → Type 0
IsGrown t t' = (n : String) → IsKnown n t → IsKnown n t'

pub add_host-IsGrown : (name : String) (opts : Opts) (t : Topo) → IsGrown t (add_host name opts t)
unfolding add_host add_node
add_host-IsGrown name opts t n h = insert-IsIn n name _ t.g.node h

pub add_host-IsKnown :
    (name : String) (opts : Opts) (t : Topo) → IsKnown name (add_host name opts t)
unfolding add_host add_node
add_host-IsKnown name opts t = insert-IsIn_self name _ t.g.node

pub add_switch-IsGrown :
    (name : String) (opts : Opts) (t : Topo) → IsGrown t (add_switch name opts t)
unfolding add_switch add_node
add_switch-IsGrown name opts t n h = insert-IsIn n name _ t.g.node h

pub add_switch-IsKnown :
    (name : String) (opts : Opts) (t : Topo) → IsKnown name (add_switch name opts t)
unfolding add_switch add_node
add_switch-IsKnown name opts t = insert-IsIn_self name _ t.g.node

pub add_edge-IsIn :
    (n a b : String) (key : Option ℕ) (info : LinkInfo) (g : MultiGraph)
    → IsIn n g.node
    → IsIn n (add_edge a b key info g).0.node
unfolding add_edge
add_edge-IsIn n a b key info g h =
    setdefault-IsIn n b no_info _ (setdefault-IsIn n a no_info g.node h)

pub known_switch : (n : String) (t : Topo) → IsKnown n t → (s : Bool) × (is_switch n t ≡ ok s)
unfolding is_switch
known_switch n t (info, h) = (info.is_switch, rw (is_switch, h) refl)

abbrev new_link : String → ℕ → String → ℕ → Topo → LinkInfo
new_link a p b q t = record {
  node1 = a;
  node2 = b;
  port1 = p;
  port2 = q;
  opts = opts_or [] t.lopts;
}

-- The topology with the ports and the edge of a new link.
abbrev with_link : String → ℕ → String → ℕ → Topo → Topo
with_link a p b q t = record (linked a p b q t) {
  g = (add_edge a b none (new_link a p b q t) t.g).0;
}

setdefault_in {ℓ} : {V : Type ℓ} (k : String) (v : V) (d : Dict V) → IsIn k d → setdefault k v d ≡ d
unfolding setdefault
setdefault_in k v d (w, h) = rw (setdefault, h) refl

-- A link between two nodes can be added, and the nodes stay the same.
pub join_known :
    (a b : String) (t : Topo)
    → IsKnown a t
    → IsKnown b t
    → (t' : Topo) × (join a b none none t ≡ ok t') × IsGrown t t' × (t'.g.node ≡ t.g.node)
unfolding join add_link add_edge
join_known a b t ha hb =
    let (x, e) = known_switch a t ha in
    let (y, e') = known_switch b t hb in
    let p = length (ports_of a t) + base_of x in
    let q = length (ports_of b t) + base_of y in
    (
      with_link a p b q t,
      rw (added a b t x y e e') refl,
      λ n h. add_edge-IsIn n a b none (new_link a p b q t) t.g h,
      rw (setdefault_in a no_info t.g.node ha) (setdefault_in b no_info t.g.node hb),
    )
