-- ===== src/Topology/Ports.antt =====
-- The ports that `addPort` chooses.
use mathlib.Core.Path.{subst}
use faultynet.Shared.{
  Numbered, at, put, at-put, ℕ, ◌+◌, ◌≤◌, ◌==◌, ◌≡◌, ◌≢◌, refl, sym, ◌∙◌, ap, Bool, none, some, [],
  ◌∷◌, length, arith, if◌then◌else◌, lookup, insert, lookup-insert, String, eq_iff, ok,
}
use faultynet.Topology.{Topo, is_switch, ports_of, port_for, add_port, or_empty}

-- Every port of a node is below the number of its ports plus its base.
abbrev pub IsCompact : {V : Type 0} → ℕ → Numbered V → Type 0
IsCompact base d = (k : ℕ) → length d + base ≤ k → at k d ≡ none

length-put :
    {V : Type 0} (k : ℕ) (v : V) (d : Numbered V)
    → at k d ≡ none
    → length (put k v d) ≡ length d + 1
unfolding at put
length-put k v [] h = refl
length-put k v ((j, w) ∷ d) h = ground (arith, length-put k v d)

pub put-IsCompact :
    {V : Type 0} (base : ℕ) (v : V) (d : Numbered V)
    → IsCompact base d
    → IsCompact base (put (length d + base) v d)
put-IsCompact base v d h k le =
    let longer = length-put (length d + base) v d (h (length d + base) (omega arith)) in
    ground (arith, longer, at-put (length d + base) k v d, h k)

abbrev pub base_of : Bool → ℕ
base_of b = if b then 1 else 0

pub port_given :
    (n : String) (t : Topo) (b : Bool)
    → is_switch n t ≡ ok b
    → port_for none n t ≡ ok (length (ports_of n t) + base_of b)
unfolding port_for
port_given n t b h = rw h refl

-- The ports after a link between two nodes.
abbrev pub linked : String → ℕ → String → ℕ → Topo → Topo
linked src s dst d t =
    let ports1 = insert src (put s (dst, d) (ports_of src t)) t.ports in
    record t { ports = insert dst (put d (src, s) (or_empty (lookup dst ports1) [])) ports1 }

pub added :
    (src dst : String) (t : Topo) (a b : Bool)
    → is_switch src t ≡ ok a
    → is_switch dst t ≡ ok b
    → add_port src dst none none t
      ≡ ok (
        linked src
            (length (ports_of src t) + base_of a)
            dst
            (length (ports_of dst t) + base_of b)
            t,
        length (ports_of src t) + base_of a,
        length (ports_of dst t) + base_of b,
      )
unfolding add_port
added src dst t a b ha hb = rw (port_given src t a ha, port_given dst t b hb) refl

pub ports-linked_src :
    (src dst : String) (s d : ℕ) (t : Topo)
    → src ≢ dst
    → ports_of src (linked src s dst d t) ≡ put s (dst, d) (ports_of src t)
ports-linked_src src dst s d t ne =
    let ports1 = insert src (put s (dst, d) (ports_of src t)) t.ports in
    ground (
      arith,
      lookup-insert dst src (put d (src, s) (or_empty (lookup dst ports1) [])) ports1,
      lookup-insert src src (put s (dst, d) (ports_of src t)) t.ports,
      eq_iff dst src,
      eq_iff src src,
    )

pub ports-linked_dst :
    (src dst : String) (s d : ℕ) (t : Topo)
    → src ≢ dst
    → ports_of dst (linked src s dst d t) ≡ put d (src, s) (ports_of dst t)
ports-linked_dst src dst s d t ne =
    let ports1 = insert src (put s (dst, d) (ports_of src t)) t.ports in
    ground (
      arith,
      lookup-insert dst dst (put d (src, s) (or_empty (lookup dst ports1) [])) ports1,
      lookup-insert src dst (put s (dst, d) (ports_of src t)) t.ports,
      eq_iff dst dst,
      eq_iff src dst,
    )

-- Between two different nodes of the graph whose ports are compact, `addPort` with no port given
-- succeeds: it takes a free port of each, each of the two leads to the other, every port that was in
-- use stays as it was, and the ports of both nodes are compact again.
add_port_connects :
    (src dst : String) (t : Topo) (a b : Bool)
    → src ≢ dst
    → is_switch src t ≡ ok a
    → is_switch dst t ≡ ok b
    → IsCompact (base_of a) (ports_of src t)
    → IsCompact (base_of b) (ports_of dst t)
    → (t' : Topo) × (s d : ℕ) × (add_port src dst none none t ≡ ok (t', s, d))
      × (at s (ports_of src t) ≡ none)
      × (at d (ports_of dst t) ≡ none)
      × ((k : ℕ)
          → at k (ports_of src t') ≡ (if s == k then some (dst, d) else at k (ports_of src t)))
      × ((k : ℕ)
          → at k (ports_of dst t') ≡ (if d == k then some (src, s) else at k (ports_of dst t)))
      × IsCompact (base_of a) (ports_of src t')
      × IsCompact (base_of b) (ports_of dst t')
add_port_connects src dst t a b ne ha hb ca cb =
    let s = length (ports_of src t) + base_of a in
    let d = length (ports_of dst t) + base_of b in
    let one = ports-linked_src src dst s d t ne in
    let two = ports-linked_dst src dst s d t ne in
    (
      linked src s dst d t,
      s,
      d,
      added src dst t a b ha hb,
      ca s (omega arith),
      cb d (omega arith),
      (λ k. ap (at k) one ∙ at-put s k (dst, d) (ports_of src t)),
      (λ k. ap (at k) two ∙ at-put d k (src, s) (ports_of dst t)),
      subst (IsCompact (base_of a)) (sym one) (put-IsCompact (base_of a) (dst, d) _ ca),
      subst (IsCompact (base_of b)) (sym two) (put-IsCompact (base_of b) (src, s) _ cb),
    )
