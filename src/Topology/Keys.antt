-- ===== src/Topology/Keys.antt =====
-- The keys of parallel links.
use faultynet.Shared.{
  at-put, Numbered, at, put, Bool, true, false, sym, ◌&&◌, ℕ, ◌+◌, ◌≤◌, ◌==◌, ◌≡◌, refl, ◌∙◌, none,
  some, Option, [], ◌∷◌, arith, if◌then◌else◌, lookup, insert, lookup-insert, String, str_eq,
  eq_iff, Dict, ap,
}
use faultynet.Topology.{max_key, LinkInfo, MultiGraph, entry_of, set_entry, add_edge, or_empty}

pub at-above : {V : Type 0} (d : Numbered V) (k : ℕ) → max_key d + 1 ≤ k → at k d ≡ none
unfolding at max_key
at-above [] k h = refl
at-above ((j, v) ∷ d) k h = ground (arith, at-above d k)

or_empty-if :
    {V : Type 0} (b : Bool) (v d : V) (o : Option V)
    → or_empty (if b then some v else o) d ≡ (if b then v else or_empty o d)
or_empty-if true v d o = refl
or_empty-if false v d o = refl

pub entry_of-set_entry :
    (a b c d : String) (entry : Numbered LinkInfo) (edge : Dict (Dict (Numbered LinkInfo)))
    → entry_of a b (set_entry c d entry edge)
      ≡ (if str_eq c a && str_eq d b then entry else entry_of a b edge)
unfolding entry_of set_entry
entry_of-set_entry a b c d entry edge = ground (
  arith,
  lookup-insert c a (insert d entry (or_empty (lookup c edge) [])) edge,
  lookup-insert d b entry (or_empty (lookup c edge) []),
  eq_iff c a,
  eq_iff d b,
)

-- A link that is added without a key gets one that no parallel link has. Afterwards both ends see the
-- same links between them: those of before, each under its key, and the new one.
add_edge_fresh :
    (src dst : String) (info : LinkInfo) (g : MultiGraph)
    → (at (add_edge src dst none info g).1 (entry_of src dst g.edge) ≡ none)
      × (entry_of src dst (add_edge src dst none info g).0.edge
          ≡ entry_of dst src (add_edge src dst none info g).0.edge)
      × ((j : ℕ)
          → at j (entry_of src dst (add_edge src dst none info g).0.edge) ≡ (
              if (add_edge src dst none info g).1 == j
              then some info
              else at j (entry_of src dst g.edge)))
unfolding add_edge
add_edge_fresh src dst info g =
    let entry = entry_of src dst g.edge in
    let k = max_key entry + 1 in
    let edge1 = set_entry src dst (put k info entry) g.edge in
    let here : entry_of src dst (set_entry dst src (put k info entry) edge1) ≡ put k info entry =
      ground (
        arith,
        entry_of-set_entry src dst dst src (put k info entry) edge1,
        entry_of-set_entry src dst src dst (put k info entry) g.edge,
        eq_iff src src,
        eq_iff dst dst,
      ) in
    let there : entry_of dst src (set_entry dst src (put k info entry) edge1) ≡ put k info entry =
      ground (
        arith,
        entry_of-set_entry dst src dst src (put k info entry) edge1,
        eq_iff src src,
        eq_iff dst dst,
      ) in
    (at-above entry k (omega arith), here ∙ sym there, λ j. ap (at j) here ∙ at-put k j info entry)
