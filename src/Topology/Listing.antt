-- ===== src/Topology/Listing.antt =====
-- mininet/topo.py: what a topology and its graph list, and what they say of a node, a port or a link.
pub mod Edges
pub mod Reading
pub mod Nodes
pub mod Built
pub mod Slots
use faultynet.Shared.{
  ℕ, ltb, String, Bool, true, false, Option, none, some, List, [], ◌∷◌, ◌++◌, map, Dict, lookup,
  insert, Numbered, at, put, Result, ok, err, key_error, value_error, ◌>>=◌, show_ℕ, if◌then◌else◌,
}
use faultynet.Shared.Sorting.{after, sort_by}
use faultynet.Topology.{NodeInfo, LinkInfo, MultiGraph, Topo, set_entry, is_switch}
use faultynet.Topology.Natural.{natural, natural_seq, key_less, seq_less}

-- `self.node.keys()`
abbrev pub node_names : MultiGraph → List String
node_names g = map (λ (n, _). n) g.node

-- `len( self )`
abbrev pub node_count : MultiGraph → ℕ
node_count g = faultynet.Shared.length g.node

pub record Edge : Type 0 where
  pub src : String
  pub dst : String
  pub key : ℕ
  pub info : LinkInfo

-- The edges between two nodes, by their keys.
unfoldable pub parallel : String → String → Numbered LinkInfo → List Edge
parallel src dst = map (λ (k, info). record { src = src; dst = dst; key = k; info = info })

-- The edges of a node, without those that are listed at the other end.
unfoldable pub row_edges : String → Dict (Numbered LinkInfo) → List Edge
unfolding after parallel
row_edges src [] = []
row_edges src ((dst, entry) ∷ row) =
    let rest = row_edges src row in if after src dst then rest else parallel src dst entry ++ rest

-- `edges_iter`, with data and keys; without them less of each edge is shown.
unfoldable pub edges_iter : Dict (Dict (Numbered LinkInfo)) → List Edge
unfolding row_edges
edges_iter [] = []
edges_iter ((src, row) ∷ edge) = row_edges src row ++ edges_iter edge

-- `iterLinks`: the ends of a link are those of its info, in the order in which they were given.
abbrev pub link_of : Edge → Edge
link_of e = record { src = e.info.node1; dst = e.info.node2; key = e.key; info = e.info }

unfoldable pub iter_links : Topo → List Edge
unfolding edges_iter
iter_links t = map link_of (edges_iter t.g.edge)

-- The part of a link by which it is sorted.
abbrev pub link_names : Bool → Edge → List String
link_names with_keys e = if with_keys then e.src ∷ e.dst ∷ show_ℕ e.key ∷ [] else e.src ∷ e.dst ∷ []

-- `links`
unfoldable pub links : Bool → Bool → Topo → List Edge
unfolding iter_links sort_by seq_less natural_seq
links sort with_keys t =
    if sort
    then sort_by seq_less (λ e. natural_seq (link_names with_keys e)) (iter_links t)
    else iter_links t

-- `nodes`
unfoldable pub nodes : Bool → Topo → List String
unfolding sort_by natural key_less
nodes sort t = if sort then sort_by key_less natural (node_names t.g) else node_names t.g

-- The names of which `isSwitch` says `wanted`.
unfoldable pub of_kind : Bool → List String → Topo → Result (List String)
unfolding is_switch
of_kind wanted [] t = ok []
of_kind wanted (n ∷ ns) t = is_switch n t >>= λ s. of_kind wanted ns t >>= λ rest.
    ok (if s then (if wanted then n ∷ rest else rest) else (if wanted then rest else n ∷ rest))

-- `switches` and `hosts`
unfoldable pub switches : Bool → Topo → Result (List String)
unfolding of_kind nodes
switches sort t = of_kind true (nodes sort t) t

unfoldable pub hosts : Bool → Topo → Result (List String)
unfolding of_kind nodes
hosts sort t = of_kind false (nodes sort t) t

-- `[ ( sport, entry[ 1 ] ) for sport, entry in ... if entry[ 0 ] == dst ]`
unfoldable pub ports_to : String → Numbered (String × ℕ) → List (ℕ × ℕ)
ports_to dst [] = []
ports_to dst ((sport, (peer, dport)) ∷ ports) =
    let rest = ports_to dst ports in
    if faultynet.Shared.str_eq peer dst then (sport, dport) ∷ rest else rest

-- `port`: one pair of ports, or the list of them where there is not exactly one.
pub data PortPairs : Type 0 where
  single : ℕ × ℕ → PortPairs
  several : List (ℕ × ℕ) → PortPairs

abbrev pub pairs_of : List (ℕ × ℕ) → PortPairs
pairs_of (p ∷ []) = single p
pairs_of ps = several ps

unfoldable pub port : String → String → Topo → Result PortPairs
unfolding lookup ports_to
port src dst t = elim (lookup src t.ports) [
  | none ↦ err key_error
  | some ports ↦ ok (pairs_of (ports_to dst ports))
]

-- `d[k]`, with the KeyError
abbrev pub item {ℓ} : {V : Type ℓ} → Option V → Result V
item none = err key_error
item (some v) = ok v

-- `min( entry )`
unfoldable pub least_key : Numbered LinkInfo → Result ℕ
least_key [] = err value_error
least_key ((k, v) ∷ []) = ok k
least_key ((k, v) ∷ d ∷ ds) = least_key (d ∷ ds) >>= λ m. ok (if ltb m k then m else k)

abbrev pub given_key : Option ℕ → Numbered LinkInfo → Result ℕ
given_key none entry = least_key entry
given_key (some k) entry = ok k

-- `_linkEntry`
unfoldable pub link_entry : String → String → Option ℕ → Topo → Result (Numbered LinkInfo × ℕ)
unfolding lookup least_key
link_entry src dst key t = item (lookup src t.g.edge) >>= λ row.
    item (lookup dst row) >>= λ entry. given_key key entry >>= λ k. ok (entry, k)

-- `linkInfo`
unfoldable pub link_info : String → String → Option ℕ → Topo → Result LinkInfo
unfolding link_entry at
link_info src dst key t = link_entry src dst key t >>= λ (entry, k). item (at k entry)

-- `setlinkInfo`; the entry is an object that both ends share.
unfoldable pub set_link_info : String → String → LinkInfo → Option ℕ → Topo → Result Topo
unfolding link_entry set_entry put
set_link_info src dst info key t = link_entry src dst key t >>= λ (entry, k).
    let entry' = put k info entry in
    ok (record t {
      g = record (t.g) { edge = set_entry dst src entry' (set_entry src dst entry' t.g.edge) };
    })

-- `nodeInfo` and `setNodeInfo`
unfoldable pub node_info : String → Topo → Result NodeInfo
unfolding lookup
node_info name t = item (lookup name t.g.node)

unfoldable pub set_node_info : String → NodeInfo → Topo → Topo
unfolding insert
set_node_info name info t = record t { g = record (t.g) { node = insert name info t.g.node } }
