-- ===== src/Topology/Listing/Nodes.antt =====
-- The nodes that a topology lists: in natural order, and each as a host or as a switch.
use mathlib.Core.List.Perm
use mathlib.Core.List.{Perm, perm_middle}
use faultynet.Shared.{
  ◌≡◌, refl, ap, ◌∙◌, String, str_eq, Bool, true, false, List, [], ◌∷◌, ◌++◌, map, All, Dict,
  lookup, Bool-cases, inl, inr, ok, eq_iff,
}
use faultynet.Shared.Sorting.{sort_by-perm, sort_by-All, IsSortedBy, sort_by-IsSortedBy}
use faultynet.Topology.{Topo, is_switch}
use faultynet.Topology.Known.{IsIn, IsKnown, known_switch}
use faultynet.Topology.Natural.{natural, key_less, key_less_asym}
use faultynet.Topology.Listing.{node_names, nodes, of_kind, hosts, switches}

IsIn-behind {ℓ} : {V : Type ℓ} (n j : String) (w : V) (d : Dict V) → IsIn n d → IsIn n ((j, w) ∷ d)
unfolding lookup
IsIn-behind n j w d (v, h) = elim (Bool-cases (str_eq j n)) [
  | inl same ↦ (w, rw same refl)
  | inr other ↦ (v, rw other h)
]

All-IsIn {ℓ} :
    {V : Type ℓ} (j : String) (w : V) (d : Dict V) (ns : List String)
    → All (λ n. IsIn n d) ns
    → All (λ n. IsIn n ((j, w) ∷ d)) ns
All-IsIn j w d [] h = tt
All-IsIn j w d (n ∷ ns) h = (IsIn-behind n j w d h.0, All-IsIn j w d ns h.1)

names-IsIn {ℓ} : {V : Type ℓ} (d : Dict V) → All (λ n. IsIn n d) (map (λ (n, _). n) d)
unfolding lookup
names-IsIn [] = tt
names-IsIn ((j, w) ∷ d) =
    let self = (eq_iff j j).1 refl in ((w, rw self refl), All-IsIn j w d _ (names-IsIn d))

nodes-IsKnown : (sort : Bool) (t : Topo) → All (λ n. IsKnown n t) (nodes sort t)
unfolding nodes
nodes-IsKnown true t = sort_by-All key_less natural (λ n. IsKnown n t) _ (names-IsIn t.g.node)
nodes-IsKnown false t = names-IsIn t.g.node

pub nodes-perm : (sort : Bool) (t : Topo) → Perm (nodes sort t) (node_names t.g)
unfolding nodes
nodes-perm true t = sort_by-perm key_less natural (node_names t.g)
nodes-perm false t = Perm.refl _

-- Of which kind a node is.
abbrev pub IsKind : Bool → Topo → String → Type 0
IsKind s t n = is_switch n t ≡ ok s

split_kinds :
    (ns : List String) (t : Topo)
    → All (λ n. IsKnown n t) ns
    → (hs ss : List String) × (of_kind false ns t ≡ ok hs)
      × (of_kind true ns t ≡ ok ss)
      × All (IsKind false t) hs
      × All (IsKind true t) ss
      × Perm (hs ++ ss) ns
unfolding of_kind
split_kinds [] t h = ([], [], refl, refl, tt, tt, Perm.refl [])
split_kinds (n ∷ ns) t h =
    let (hs, ss, e, e', is_host, is_sw, perm) = split_kinds ns t h.1 in
    let (b, found) = known_switch n t h.0 in
    elim (Bool-cases b) [
      | inl is_true ↦
          let s = found ∙ ap ok is_true in
          (
            hs,
            n ∷ ss,
            rw (s, e) refl,
            rw (s, e') refl,
            is_host,
            (s, is_sw),
            Perm.trans (perm_middle hs ss) (Perm.cons n perm),
          )
      | inr is_false ↦
          let s = found ∙ ap ok is_false in
          (n ∷ hs, ss, rw (s, e) refl, rw (s, e') refl, (s, is_host), is_sw, Perm.cons n perm)
    ]

-- `hosts` and `switches` succeed, `isSwitch` is false of what the first lists and true of what the
-- second does, and together they list every node of the graph exactly as often as the graph does.
-- Sorted, the nodes are in the natural order of their names.
pub hosts-switches :
    (sort : Bool) (t : Topo)
    → (hs ss : List String) × (hosts sort t ≡ ok hs)
      × (switches sort t ≡ ok ss)
      × All (IsKind false t) hs
      × All (IsKind true t) ss
      × Perm (hs ++ ss) (node_names t.g)
      × IsSortedBy key_less natural (nodes true t)
unfolding hosts switches
hosts-switches sort t =
    let (hs, ss, e, e', is_host, is_sw, perm) =
      split_kinds (nodes sort t) t (nodes-IsKnown sort t) in
    (
      hs,
      ss,
      e,
      e',
      is_host,
      is_sw,
      Perm.trans perm (nodes-perm sort t),
      unfold nodes in sort_by-IsSortedBy key_less natural key_less_asym (node_names t.g),
    )
