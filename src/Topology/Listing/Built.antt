-- ===== src/Topology/Listing/Built.antt =====
-- The topologies that the methods of `Topo` (mininet/topo.py) make, one call after another.
use mathlib.Core.Logic.Or
use mathlib.Core.Path.{subst}
use mathlib.Core.List.Perm
use mathlib.Core.List.{Mem, mem-cons, not-mem-nil}
use faultynet.Shared.{
  ℕ, ◌≡◌, refl, ap, sym, ◌∙◌, false, arith, ok-injective, String, none, Option, [], Option-cases,
  inl, inr, lookup, ok,
}
use faultynet.Topology.{Topo, Opts, add_host, add_switch, add_link, entry_of}
use faultynet.Topology.Known.{IsKnown, IsGrown, add_host-IsGrown, add_switch-IsGrown}
use faultynet.Topology.Listing.{Edge, iter_links, links}
use faultynet.Topology.Listing.Edges.{IsShared}
use faultynet.Topology.Listing.Reading.{IsFree, links-add_link}

-- `Topo.__init__`, before `build`
abbrev pub fresh : Opts → Opts → Opts → Topo
fresh hopts sopts lopts = record {
  g = record { node = []; edge = [] };
  hopts = hopts;
  sopts = sopts;
  lopts = lopts;
  ports = [];
}

pub data IsBuilt : Topo → Type 0 where
  started : (hopts sopts lopts : Opts) → IsBuilt (fresh hopts sopts lopts)
  hosted : {t : Topo} (name : String) (opts : Opts) → IsBuilt t → IsBuilt (add_host name opts t)
  switched : {t : Topo} (name : String) (opts : Opts) → IsBuilt t → IsBuilt (add_switch name opts t)
  linked :
      {t t' : Topo} {k : ℕ} (a b : String) (port1 port2 key : Option ℕ) (opts : Opts)
      → IsBuilt t
      → IsKnown a t
      → IsKnown b t
      → IsFree key (entry_of a b t.g.edge)
      → add_link a b port1 port2 key opts t ≡ ok (t', k)
      → IsBuilt t'

-- A name of a node, as a proposition.
abbrev pub IsNode : Topo → String → Type 0
IsNode t n = lookup n t.g.node ≡ none → ⊥

-- Both ends of every link are nodes of the topology.
abbrev pub IsEnded : Topo → Type 0
IsEnded t = (e : Edge) → Mem e (iter_links t) → IsNode t e.info.node1 × IsNode t e.info.node2

known-IsNode : (n : String) (t : Topo) → IsKnown n t → IsNode t n
known-IsNode n t (v, found) missing = ground (arith, found, missing)

grown-IsNode : (n : String) (t t' : Topo) → IsGrown t t' → IsNode t n → IsNode t' n
grown-IsNode n t t' grows here = elim (Option-cases (lookup n t.g.node)) [
  | inl missing ↦ absurd (here missing)
  | inr found ↦ known-IsNode n t' (grows n found)
]

abbrev IsSound : Topo → Type 0
IsSound t = IsShared t.g.edge × IsEnded t

link-IsSound :
    (t t' : Topo) (k : ℕ) (a b : String) (port1 port2 key : Option ℕ) (opts : Opts)
    → IsKnown a t
    → IsKnown b t
    → IsFree key (entry_of a b t.g.edge)
    → add_link a b port1 port2 key opts t ≡ ok (t', k)
    → IsSound t
    → IsSound t'
unfolding links
link-IsSound t t' k a b port1 port2 key opts known_a known_b free run (shared, ended) =
    let (t1, k1, p, q, run1, perm, here, there, shared1, grows) =
      links-add_link false false a b port1 port2 key opts t known_a known_b shared free in
    let same : t1 ≡ t' = ap (λ r. r.0) (ok-injective (sym run1 ∙ run)) in
    let old : (n : String) → IsNode t n → IsNode t1 n = λ n h. grown-IsNode n t t1 grows h in
    let ended1 : IsEnded t1 = λ e m.
      Or.elim (hlevel) (mem-cons.0 ((Perm.mem_iff perm).0 m))
        (λ new.
          (rw new (old a (known-IsNode a t known_a)), rw new (old b (known-IsNode b t known_b))))
        (λ held. (old e.info.node1 (ended e held).0, old e.info.node2 (ended e held).1)) in
    subst IsSound same (shared1, ended1)

sound : {t : Topo} → IsBuilt t → IsSound t
unfolding add_host add_switch entry_of iter_links
sound (started hopts sopts lopts) = ((λ a b. refl), λ e m. absurd (not-mem-nil m))
sound (hosted {t} name opts built) =
    let (shared, ended) = sound built in
    (
      shared,
      λ e m. (
        grown-IsNode e.info.node1 t (add_host name opts t) (add_host-IsGrown name opts t)
            (ended e m).0,
        grown-IsNode e.info.node2 t (add_host name opts t) (add_host-IsGrown name opts t)
            (ended e m).1,
      ),
    )
sound (switched {t} name opts built) =
    let (shared, ended) = sound built in
    (
      shared,
      λ e m. (
        grown-IsNode e.info.node1 t (add_switch name opts t) (add_switch-IsGrown name opts t)
            (ended e m).0,
        grown-IsNode e.info.node2 t (add_switch name opts t) (add_switch-IsGrown name opts t)
            (ended e m).1,
      ),
    )
sound (linked {t} {t'} {k} a b port1 port2 key opts built known_a known_b free run) =
    link-IsSound t t' k a b port1 port2 key opts known_a known_b free run (sound built)

pub IsBuilt-IsEnded : {t : Topo} → IsBuilt t → IsEnded t
IsBuilt-IsEnded built = (sound built).1

pub IsBuilt-IsShared : {t : Topo} → IsBuilt t → IsShared t.g.edge
IsBuilt-IsShared built = (sound built).0
