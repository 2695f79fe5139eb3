-- ===== src/Topology/Listing/Slots.antt =====
-- Which ports the links of a topology (mininet/topo.py) take, where `addLink` chooses them.
use mathlib.Core.Logic.Or
use mathlib.Core.Path.{subst}
use mathlib.Core.List.Perm
use mathlib.Core.List.{Mem, Perm, Pairwise, Pairwise-cons, mem-cons, not-mem-nil}
use faultynet.Shared.{
  ℕ, ◌+◌, ◌≡◌, ◌≢◌, ◌⊎◌, refl, sym, ap, ◌∙◌, String, str_eq, eq_iff, Bool, false, none, [], ◌∷◌,
  length, Bool-cases, Option-cases, inl, inr, arith, Dict, lookup, insert, lookup-insert, at, put,
  at-put, Numbered, ok, ok-injective,
}
use faultynet.Topology.{
  Topo, Opts, NodeInfo, no_info, setdefault, add_host, add_switch, add_link, add_edge, is_switch,
  ports_of, or_empty, entry_of, key_for,
}
use faultynet.Topology.Known.{IsKnown, known_switch}
use faultynet.Topology.Ports.{
  IsCompact, base_of, ports-linked_src, ports-linked_dst, put-IsCompact, port_given,
}
use faultynet.Topology.Listing.{Edge, iter_links, links}
use faultynet.Topology.Listing.Edges.{IsShared, edge_at}
use faultynet.Topology.Listing.Reading.{described, with_edge, added_at, links-with_edge}
use faultynet.Topology.Listing.Built.{IsBuilt, IsBuilt-IsShared, fresh}
use faultynet.Topology.Listing.Built

-- A node and one of its ports.
abbrev pub Slot : Type 0
Slot = String × ℕ

abbrev pub slot1 : Edge → Slot
slot1 e = (e.info.node1, e.info.port1)

abbrev pub slot2 : Edge → Slot
slot2 e = (e.info.node2, e.info.port2)

abbrev pub IsSlot : Slot → Edge → Type 0
IsSlot a e = (a ≡ slot1 e) ⊎ (a ≡ slot2 e)

-- No slot is one of both.
abbrev pub IsApart : Edge → Edge → Type 0
IsApart e f = (a : Slot) → IsSlot a e → IsSlot a f → ⊥

-- The topologies of nodes with names of their own and links between different nodes, whose ports
-- `addLink` chooses.
pub data IsPlain : Topo → Type 0 where
  started : (hopts sopts lopts : Opts) → IsPlain (fresh hopts sopts lopts)
  hosted :
      {t : Topo} (name : String) (opts : Opts)
      → IsPlain t
      → lookup name t.g.node ≡ none
      → IsPlain (add_host name opts t)
  switched :
      {t : Topo} (name : String) (opts : Opts)
      → IsPlain t
      → lookup name t.g.node ≡ none
      → IsPlain (add_switch name opts t)
  linked :
      {t t' : Topo} {k : ℕ} (a b : String) (opts : Opts)
      → IsPlain t
      → a ≢ b
      → IsKnown a t
      → IsKnown b t
      → add_link a b none none none opts t ≡ ok (t', k)
      → IsPlain t'

pub IsPlain-IsBuilt : {t : Topo} → IsPlain t → IsBuilt t
IsPlain-IsBuilt (started hopts sopts lopts) = Built.started hopts sopts lopts
IsPlain-IsBuilt (hosted name opts plain new) = Built.hosted name opts (IsPlain-IsBuilt plain)
IsPlain-IsBuilt (switched name opts plain new) = Built.switched name opts (IsPlain-IsBuilt plain)
IsPlain-IsBuilt (linked a b opts plain apart known_a known_b run) =
    Built.linked a b none none none opts (IsPlain-IsBuilt plain) known_a known_b tt run

abbrev IsTaken : Topo → Slot → Type 0
IsTaken t a = at a.1 (ports_of a.0 t) ≡ none → ⊥

pub record HasSlots (t : Topo) : Type 0 where
  pub taken : (e : Edge) → Mem e (iter_links t) → (a : Slot) → IsSlot a e → IsTaken t a
  pub apart : Pairwise IsApart (iter_links t)
  pub ends : (e : Edge) → Mem e (iter_links t) → slot1 e ≢ slot2 e
  pub compact :
      (n : String) (s : Bool) → is_switch n t ≡ ok s → IsCompact (base_of s) (ports_of n t)
  pub unknown : (n : String) → lookup n t.g.node ≡ none → ports_of n t ≡ []

abbrev with_node : String → NodeInfo → Topo → Topo
with_node name info t = record t { g = record (t.g) { node = insert name info t.g.node } }

at_nothing : {V : Type 0} (k : ℕ) (d : Numbered V) → d ≡ [] → at k d ≡ none
unfolding at
at_nothing k d e = rw e refl

kind_before :
    (name n : String) (info : NodeInfo) (s : Bool) (t : Topo)
    → str_eq name n ≡ false
    → is_switch n (with_node name info t) ≡ ok s
    → is_switch n t ≡ ok s
unfolding is_switch
kind_before name n info s t other h = ground (arith, lookup-insert name n info t.g.node, other, h)

-- A new node has no slot.
with_node-HasSlots :
    (name : String) (info : NodeInfo) (t : Topo)
    → lookup name t.g.node ≡ none
    → HasSlots t
    → HasSlots (with_node name info t)
unfolding iter_links
with_node-HasSlots name info t new h = record {
  taken = h.taken;
  apart = h.apart;
  ends = h.ends;
  compact = λ n s e. elim (Bool-cases (str_eq name n)) [
    | inl same ↦
        let none_yet = h.unknown n (rw ((eq_iff name n).0 same) at new) in
        (λ k le. at_nothing k (ports_of n t) none_yet)
    | inr other ↦ h.compact n s (kind_before name n info s t other e)
  ];
  unknown = λ n e. h.unknown n (ground (arith, lookup-insert name n info t.g.node, e));
}

setdefault_known :
    (k : String) (v : NodeInfo) (d : Dict NodeInfo) → (lookup k d ≡ none → ⊥) → setdefault k v d ≡ d
unfolding setdefault
setdefault_known k v d known = elim (Option-cases (lookup k d)) [
  | inl missing ↦ absurd (known missing)
  | inr (w, found) ↦ rw (setdefault, found) refl
]

put_taken :
    {V : Type 0} (k j : ℕ) (v : V) (d : Numbered V)
    → (at j d ≡ none → ⊥)
    → at j (put k v d) ≡ none
    → ⊥
put_taken k j v d taken e = ground (arith, at-put k j v d, taken, e)

put_self : {V : Type 0} (k : ℕ) (v : V) (d : Numbered V) → at k (put k v d) ≡ none → ⊥
put_self k v d e = ground (arith, at-put k k v d, e)

kind-known :
    (n : String) (s : Bool) (t : Topo) → is_switch n t ≡ ok s → lookup n t.g.node ≡ none → ⊥
unfolding is_switch
kind-known n s t h e = ground (arith, h, e)

-- One more link between two different nodes.
module _ (a b : String) (x y : Bool) (opts : Opts) (t : Topo) (differ : a ≢ b)
    (kind_a : is_switch a t ≡ ok x) (kind_b : is_switch b t ≡ ok y) where
  abbrev p : ℕ
  p = length (ports_of a t) + base_of x

  abbrev q : ℕ
  q = length (ports_of b t) + base_of y

  abbrev grown : Topo
  grown = with_edge a b p q none opts t

  same_nodes : grown.g.node ≡ t.g.node
  unfolding add_edge
  same_nodes =
      let first = setdefault_known a no_info t.g.node (kind-known a x t kind_a) in
      rw first (setdefault_known b no_info t.g.node (kind-known b y t kind_b))

  same_kind : (n : String) → is_switch n grown ≡ is_switch n t
  unfolding is_switch add_edge
  same_kind n = rw same_nodes refl

  ports_a : ports_of a grown ≡ put p (b, q) (ports_of a t)
  ports_a = ports-linked_src a b p q t differ

  ports_b : ports_of b grown ≡ put q (a, p) (ports_of b t)
  ports_b = ports-linked_dst a b p q t differ

  ports_other :
      (n : String) → str_eq a n ≡ false → str_eq b n ≡ false → ports_of n grown ≡ ports_of n t
  ports_other n other_a other_b =
      let ports1 = insert a (put p (b, q) (ports_of a t)) t.ports in
      ground (
        arith,
        lookup-insert b n (put q (a, p) (or_empty (lookup b ports1) [])) ports1,
        lookup-insert a n (put p (b, q) (ports_of a t)) t.ports,
        other_a,
        other_b,
      )

  -- What is shown for the two nodes and for the others holds of every node.
  by_node :
      (P : String → Type 0)
      → P a
      → P b
      → ((n : String) → str_eq a n ≡ false → str_eq b n ≡ false → P n)
      → (n : String) → P n
  by_node P at_a at_b others n = elim (Bool-cases (str_eq a n)) [
    | inl is_a ↦ subst P ((eq_iff a n).0 is_a) at_a
    | inr other_a ↦ elim (Bool-cases (str_eq b n)) [
      | inl is_b ↦ subst P ((eq_iff b n).0 is_b) at_b
      | inr other_b ↦ others n other_a other_b
    ]
  ]

  IsTaken-grows : (n : String) (j : ℕ) → IsTaken t (n, j) → IsTaken grown (n, j)
  IsTaken-grows =
      by_node (λ n. (j : ℕ) → IsTaken t (n, j) → IsTaken grown (n, j))
        (λ j taken. rw ports_a (put_taken p j (b, q) (ports_of a t) taken))
        (λ j taken. rw ports_b (put_taken q j (a, p) (ports_of b t) taken))
        (λ n other_a other_b j taken. rw (ports_other n other_a other_b) taken)

  new_edge : Edge
  new_edge = edge_at a b (key_for none (entry_of a b t.g.edge)) (described a b p q opts t)

  module _ (shared : IsShared t.g.edge) (h : HasSlots t) where
    perm : Perm (iter_links grown) (new_edge ∷ iter_links t)
    unfolding new_edge links
    perm = links-with_edge false false a b p q none opts t shared tt

    free : (s : Slot) → IsSlot s new_edge → at s.1 (ports_of s.0 t) ≡ none
    unfolding new_edge
    free s (inl e) = rw e (h.compact a x kind_a p (omega arith))
    free s (inr e) = rw e (h.compact b y kind_b q (omega arith))

    new-IsTaken : (s : Slot) → IsSlot s new_edge → IsTaken grown s
    unfolding new_edge
    new-IsTaken s (inl e) = rw (e, ports_a) (put_self p (b, q) (ports_of a t))
    new-IsTaken s (inr e) = rw (e, ports_b) (put_self q (a, p) (ports_of b t))

    linked-HasSlots : HasSlots grown
    unfolding new_edge
    linked-HasSlots = record {
      taken = λ e m s is.
          Or.elim (hlevel) (mem-cons.0 ((Perm.mem_iff perm).0 m))
            (λ new. new-IsTaken s (subst (IsSlot s) new is))
            (λ old. IsTaken-grows s.0 s.1 (h.taken e old s is));
      apart =
          Perm.pairwise {R = IsApart} (λ e f. hlevel) (λ e f r s one two. r s two one)
            (Perm.symm perm)
            (Pairwise-cons.1 ((λ f m s one two. h.taken f m s two (free s one)), h.apart));
      ends = λ e m.
          Or.elim (hlevel) (mem-cons.0 ((Perm.mem_iff perm).0 m))
            (λ new same. differ (ap (λ s. s.0) (rw new at same))) (λ old. h.ends e old);
      compact =
          by_node
            (λ n. (s : Bool) → is_switch n grown ≡ ok s → IsCompact (base_of s) (ports_of n grown))
            (λ s e.
              let same : x ≡ s = ok-injective (sym kind_a ∙ sym (same_kind a) ∙ e) in
              rw (← same) (
                subst (IsCompact (base_of x)) (sym ports_a)
                  (put-IsCompact (base_of x) (b, q) _ (h.compact a x kind_a))))
            (λ s e.
              let same : y ≡ s = ok-injective (sym kind_b ∙ sym (same_kind b) ∙ e) in
              rw (← same) (
                subst (IsCompact (base_of y)) (sym ports_b)
                  (put-IsCompact (base_of y) (a, p) _ (h.compact b y kind_b))))
            (λ n other_a other_b s e.
              subst (IsCompact (base_of s)) (sym (ports_other n other_a other_b))
                (h.compact n s (sym (same_kind n) ∙ e)));
      unknown = λ n e.
          let missing : lookup n t.g.node ≡ none = rw same_nodes at e in
          by_node (λ n. lookup n t.g.node ≡ none → ports_of n grown ≡ [])
            (λ e. absurd (kind-known a x t kind_a e)) (λ e. absurd (kind-known b y t kind_b e))
            (λ n other_a other_b e. ports_other n other_a other_b ∙ h.unknown n e) n missing;
    }

started-HasSlots : (hopts sopts lopts : Opts) → HasSlots (fresh hopts sopts lopts)
unfolding iter_links at lookup
started-HasSlots hopts sopts lopts = record {
  taken = λ e m s is. absurd (not-mem-nil m);
  apart = Pairwise.nil;
  ends = λ e m. absurd (not-mem-nil m);
  compact = λ n s e k le. refl;
  unknown = λ n e. refl;
}

-- In such a topology no two ends of links are at one port of a node.
pub IsPlain-HasSlots : {t : Topo} → IsPlain t → HasSlots t
unfolding add_host add_switch
IsPlain-HasSlots (started hopts sopts lopts) = started-HasSlots hopts sopts lopts
IsPlain-HasSlots (hosted {t} name opts plain new) =
    with_node-HasSlots name _ t new (IsPlain-HasSlots plain)
IsPlain-HasSlots (switched {t} name opts plain new) =
    with_node-HasSlots name _ t new (IsPlain-HasSlots plain)
IsPlain-HasSlots (linked {t} {t'} {k} a b opts plain differ known_a known_b run) =
    let (x, kind_a) = known_switch a t known_a in
    let (y, kind_b) = known_switch b t known_b in
    let here =
      added_at a b none none none opts t (p a b x y opts t differ kind_a kind_b)
        (q a b x y opts t differ kind_a kind_b) (port_given a t x kind_a)
        (port_given b t y kind_b) in
    let same : grown a b x y opts t differ kind_a kind_b ≡ t' =
      ap (λ r. r.0) (ok-injective (sym here ∙ run)) in
    subst HasSlots same (
      linked-HasSlots a b x y opts t differ kind_a kind_b (IsBuilt-IsShared (IsPlain-IsBuilt plain))
        (IsPlain-HasSlots plain))
