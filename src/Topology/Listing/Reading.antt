-- ===== src/Topology/Listing/Reading.antt =====
-- The links that a topology lists after `addLink`, and what `linkInfo` says of the new one.
use mathlib.Core.List.Perm
use mathlib.Core.List.{Perm}
use faultynet.Shared.{
  ℕ, ◌+◌, length, ◌≡◌, refl, ap, sym, ◌∙◌, String, str_eq, eq_iff, Bool, true, false, Option, none,
  some, [], ◌∷◌, Bool-cases, inl, inr, arith, lookup, insert, lookup-insert, Numbered, at, put,
  at-put, ok, err, Result, ◌>>=◌, ==_iff, Dict,
}
use faultynet.Shared.Sorting.{after, sort_by-perm}
use faultynet.Topology.{
  Topo, LinkInfo, Opts, opts_or, add_edge, add_port, add_link, entry_of, key_for, port_for,
  ports_of, set_entry, or_empty,
}
use faultynet.Topology.Keys.{at-above}
use faultynet.Topology.Known.{IsKnown, IsGrown, known_switch, add_edge-IsIn}
use faultynet.Topology.Ports.{linked, base_of}
use faultynet.Topology.Natural.{natural_seq, seq_less}
use faultynet.Topology.Listing.{link_of, iter_links, link_names, links, link_entry, link_info, item}
use faultynet.Topology.Listing.Edges.{
  edge_at, end_order, IsShared, store_both, store_both-IsShared, stored_edges,
}

-- No link has the key that is given.
abbrev pub IsFree : Option ℕ → Numbered LinkInfo → Type 0
IsFree none entry = Unit
IsFree (some k) entry = at k entry ≡ none

key_free :
    (key : Option ℕ) (entry : Numbered LinkInfo)
    → IsFree key entry
    → at (key_for key entry) entry ≡ none
key_free none entry h = at-above entry _ (omega arith)
key_free (some k) entry h = h

-- The info of a new link.
abbrev pub described : String → String → ℕ → ℕ → Opts → Topo → LinkInfo
described a b p q opts t = record {
  node1 = a;
  node2 = b;
  port1 = p;
  port2 = q;
  opts = opts_or opts t.lopts;
}

port_found :
    (port : Option ℕ) (n : String) (t : Topo) → IsKnown n t → (p : ℕ) × (port_for port n t ≡ ok p)
unfolding port_for
port_found (some p) n t known = (p, refl)
port_found none n t known =
    let (s, e) = known_switch n t known in (length (ports_of n t) + base_of s, rw e refl)

-- The topology after `addLink` at two ports.
abbrev pub with_edge : String → String → ℕ → ℕ → Option ℕ → Opts → Topo → Topo
with_edge a b p q key opts t = record (linked a p b q t) {
  g = (add_edge a b key (described a b p q opts t) t.g).0;
}

pub added_at :
    (a b : String) (port1 port2 key : Option ℕ) (opts : Opts) (t : Topo) (p q : ℕ)
    → port_for port1 a t ≡ ok p
    → port_for port2 b t ≡ ok q
    → add_link a b port1 port2 key opts t
      ≡ ok (with_edge a b p q key opts t, (add_edge a b key (described a b p q opts t) t.g).1)
unfolding add_link add_port
added_at a b port1 port2 key opts t p q e e' = rw (e, e') refl

link_of-end_order :
    (a b : String) (k p q : ℕ) (opts : Opts) (t : Topo)
    → link_of (end_order a b k (described a b p q opts t))
      ≡ edge_at a b k (described a b p q opts t)
link_of-end_order a b k p q opts t = elim (Bool-cases (after a b)) [
  | inl down ↦ rw down refl
  | inr up ↦ rw up refl
]

pub links-perm : (sort with_keys : Bool) (t : Topo) → Perm (links sort with_keys t) (iter_links t)
unfolding links
links-perm true with_keys t = sort_by-perm seq_less (λ e. natural_seq (link_names with_keys e)) _
links-perm false with_keys t = Perm.refl _

-- Both ends find the entry that was stored last.
stored_found :
    (a b : String) (new : Numbered LinkInfo) (edge : Dict (Dict (Numbered LinkInfo)))
    → ((item (lookup a (store_both a b new edge)) >>= λ row. item (lookup b row)) ≡ ok new)
      × ((item (lookup b (store_both a b new edge)) >>= λ row. item (lookup a row)) ≡ ok new)
unfolding set_entry
stored_found a b new edge =
    let edge1 = set_entry a b new edge in
    let row_a = insert b new (or_empty (lookup a edge) []) in
    let row_b = insert a new (or_empty (lookup b edge1) []) in
    let self_a = (eq_iff a a).1 refl in
    let self_b = (eq_iff b b).1 refl in
    (
      elim (Bool-cases (str_eq b a)) [
        | inl same ↦
            let back : str_eq a b ≡ true = rw ((eq_iff b a).0 same) self_a in
            rw
              (
                lookup-insert b a row_b edge1,
                same,
                lookup-insert a b new (or_empty (lookup b edge1) []),
                back,
              )
              refl
        | inr other ↦
            rw
              (
                lookup-insert b a row_b edge1,
                other,
                lookup-insert a a row_a edge,
                self_a,
                lookup-insert b b new (or_empty (lookup a edge) []),
                self_b,
              )
              refl
      ],
      rw
          (
            lookup-insert b b row_b edge1,
            self_b,
            lookup-insert a a new (or_empty (lookup b edge1) []),
            self_a,
          )
          refl,
    )

-- A look-up of an entry and its key, before the look-up of the link.
abbrev keyed : (r : Result (Numbered LinkInfo)) (k : ℕ) → Result LinkInfo
keyed r k = (r >>= λ entry. ok (entry, k)) >>= λ (entry, k). item (at k entry)

keyed_found :
    (r : Result (Numbered LinkInfo)) (k : ℕ) (entry : Numbered LinkInfo)
    → r ≡ ok entry
    → keyed r k ≡ item (at k entry)
keyed_found r k entry e = rw e refl

>>=-assoc :
    {A B C : Type 0} (r : Result A) (f : A → Result B) (g : B → Result C)
    → ((r >>= f) >>= g) ≡ (r >>= λ x. f x >>= g)
>>=-assoc (ok x) f g = refl
>>=-assoc (err e) f g = refl

info_read :
    (a b : String) (k : ℕ) (info : LinkInfo) (entry : Numbered LinkInfo) (t : Topo)
    → ((item (lookup a t.g.edge) >>= λ row. item (lookup b row)) ≡ ok entry)
    → at k entry ≡ some info
    → link_info a b (some k) t ≡ ok info
unfolding link_info link_entry
info_read a b k info entry t e h =
    ap (λ r. r >>= λ (entry, k). item (at k entry)) (sym (>>=-assoc (item (lookup a t.g.edge)) _ _))
    ∙ keyed_found _ k entry e
    ∙ ap item h

-- The links after a new one.
pub links-with_edge :
    (sort with_keys : Bool) (a b : String) (p q : ℕ) (key : Option ℕ) (opts : Opts) (t : Topo)
    → IsShared t.g.edge
    → IsFree key (entry_of a b t.g.edge)
    → Perm (links sort with_keys (with_edge a b p q key opts t)) (
        edge_at a b (key_for key (entry_of a b t.g.edge)) (described a b p q opts t)
        ∷ links sort with_keys t)
unfolding add_edge iter_links
links-with_edge sort with_keys a b p q key opts t shared free =
    let entry = entry_of a b t.g.edge in
    let info = described a b p q opts t in
    let added =
      stored_edges a b (key_for key entry) info t.g.edge shared (key_free key entry free) in
    Perm.trans (links-perm sort with_keys (with_edge a b p q key opts t)) (
      Perm.trans
        (rw (link_of-end_order a b (key_for key entry) p q opts t) at (Perm.map link_of added))
        (Perm.cons _ (Perm.symm (links-perm sort with_keys t))))

-- Between two nodes of the topology, and under a key that none of their links has if one is given,
-- `addLink` adds exactly one link to those that are listed, sorted or not, with the ends in the order
-- given. Both ends then find its ports and its options under the key that was returned, and no node is
-- lost.
pub links-add_link :
    (sort with_keys : Bool) (a b : String) (port1 port2 key : Option ℕ) (opts : Opts) (t : Topo)
    → IsKnown a t
    → IsKnown b t
    → IsShared t.g.edge
    → IsFree key (entry_of a b t.g.edge)
    → (t' : Topo) × (k p q : ℕ) × (add_link a b port1 port2 key opts t ≡ ok (t', k))
      × Perm
          (links sort with_keys t')
          (edge_at a b k (described a b p q opts t) ∷ links sort with_keys t)
      × (link_info a b (some k) t' ≡ ok (described a b p q opts t))
      × (link_info b a (some k) t' ≡ ok (described a b p q opts t))
      × IsShared t'.g.edge
      × IsGrown t t'
unfolding add_edge
links-add_link sort with_keys a b port1 port2 key opts t known_a known_b shared free =
    let (p, e) = port_found port1 a t known_a in
    let (q, e') = port_found port2 b t known_b in
    let entry = entry_of a b t.g.edge in
    let k = key_for key entry in
    let info = described a b p q opts t in
    let new = put k info entry in
    let t' = with_edge a b p q key opts t in
    let found = stored_found a b new t.g.edge in
    let here : at k new ≡ some info = ground (arith, at-put k k info entry, ==_iff k k) in
    (
      t',
      k,
      p,
      q,
      added_at a b port1 port2 key opts t p q e e',
      links-with_edge sort with_keys a b p q key opts t shared free,
      info_read a b k info new t' found.0 here,
      info_read b a k info new t' found.1 here,
      store_both-IsShared a b new t.g.edge shared,
      (λ n h. add_edge-IsIn n a b key info t.g h),
    )
