-- ===== src/Topology.antt =====
-- mininet/topo.py: `MultiGraph`, and the nodes, links and ports of `Topo`.
pub mod Keys
pub mod Known
pub mod Ports
pub mod Natural
pub mod Listing
pub mod Trees
pub mod Torus
use faultynet.Shared.{
  ℕ, ◌+◌, ltb, String, Bool, true, false, Option, none, some, [], ◌∷◌, length, Dict, lookup, insert,
  Numbered, put, Result, ok, err, key_error, ◌>>=◌, if◌then◌else◌,
}

-- `d.setdefault(k, v)`, and the value that it returns.
unfoldable pub setdefault {ℓ} : {V : Type ℓ} → String → V → Dict V → Dict V
unfolding lookup insert
setdefault k v d = elim (lookup k d) [ none ↦ insert k v d | some _ ↦ d ]

abbrev pub or_empty {ℓ} : {V : Type ℓ} → Option V → V → V
or_empty none v = v
or_empty (some w) v = w

-- The options of a node or a link, by their names.
abbrev pub Opts : Type 0
Opts = Dict String

pub record NodeInfo : Type 0 where
  pub is_switch : Bool
  pub opts : Opts

pub record LinkInfo : Type 0 where
  pub node1 : String
  pub node2 : String
  pub port1 : ℕ
  pub port2 : ℕ
  pub opts : Opts

-- `edge[src][dst]` and `edge[dst][src]` are one object: what is written to it is written to both.
pub record MultiGraph : Type 0 where
  pub node : Dict NodeInfo
  pub edge : Dict (Dict (Numbered LinkInfo))

unfoldable pub add_node : String → NodeInfo → MultiGraph → MultiGraph
unfolding insert
add_node name info g = record g { node = insert name info g.node }

-- `max([0] + keys)`
unfoldable pub max_key : {V : Type 0} → Numbered V → ℕ
max_key [] = 0
max_key ((k, v) ∷ d) = let rest = max_key d in if ltb rest k then k else rest

abbrev pub no_info : NodeInfo
no_info = record { is_switch = false; opts = [] }

-- `edge[src][dst]`, empty where there is none.
unfoldable pub entry_of : String → String → Dict (Dict (Numbered LinkInfo)) → Numbered LinkInfo
unfolding lookup
entry_of src dst edge = or_empty (lookup dst (or_empty (lookup src edge) [])) []

-- `edge[src][dst] = entry`
unfoldable pub set_entry :
    String
    → String
    → Numbered LinkInfo
    → Dict (Dict (Numbered LinkInfo))
    → Dict (Dict (Numbered LinkInfo))
unfolding lookup insert
set_entry src dst entry edge = insert src (insert dst entry (or_empty (lookup src edge) [])) edge

abbrev pub key_for : {V : Type 0} → Option ℕ → Numbered V → ℕ
key_for none entry = max_key entry + 1
key_for (some k) entry = k

-- `add_edge`: the graph, and the key of the edge.
unfoldable pub add_edge : String → String → Option ℕ → LinkInfo → MultiGraph → MultiGraph × ℕ
unfolding setdefault max_key entry_of set_entry put
add_edge src dst key info g =
    let entry = entry_of src dst g.edge in
    let k = key_for key entry in
    let entry' = put k info entry in
    (
      record {
        node = setdefault dst no_info (setdefault src no_info g.node);
        edge = set_entry dst src entry' (set_entry src dst entry' g.edge);
      },
      k,
    )

-- The peer and its port, by the port of a node.
pub record Topo : Type 0 where
  pub g : MultiGraph
  pub hopts : Opts
  pub sopts : Opts
  pub lopts : Opts
  pub ports : Dict (Numbered (String × ℕ))

-- `if not opts and defaults: opts = defaults`
abbrev pub opts_or : Opts → Opts → Opts
opts_or [] defaults = defaults
opts_or (o ∷ opts) defaults = o ∷ opts

unfoldable pub add_host : String → Opts → Topo → Topo
unfolding add_node
add_host name opts t = record t {
  g = add_node name (record { is_switch = false; opts = opts_or opts t.hopts }) t.g;
}

unfoldable pub add_switch : String → Opts → Topo → Topo
unfolding add_node
add_switch name opts t = record t {
  g = add_node name (record { is_switch = true; opts = opts_or opts t.sopts }) t.g;
}

-- `isSwitch` of a node that has to exist
unfoldable pub is_switch : String → Topo → Result Bool
unfolding lookup
is_switch n t = elim (lookup n t.g.node) [ none ↦ err key_error | some info ↦ ok info.is_switch ]

-- The ports of a node.
abbrev pub ports_of : String → Topo → Numbered (String × ℕ)
ports_of n t = or_empty (lookup n t.ports) []

-- A port that is given, or the number of ports plus the base.
unfoldable pub port_for : Option ℕ → String → Topo → Result ℕ
unfolding is_switch lookup
port_for (some p) n t = ok p
port_for none n t = is_switch n t >>= λ s. ok (length (ports_of n t) + (if s then 1 else 0))

-- `addPort`
unfoldable pub add_port : String → String → Option ℕ → Option ℕ → Topo → Result (Topo × ℕ × ℕ)
unfolding port_for put insert lookup
add_port src dst sport dport t = port_for sport src t >>= λ s. port_for dport dst t >>= λ d.
    let ports1 = insert src (put s (dst, d) (ports_of src t)) t.ports in
    let ports2 = insert dst (put d (src, s) (or_empty (lookup dst ports1) [])) ports1 in
    ok (record t { ports = ports2 }, s, d)

-- `addLink`: the topology, and the key of the link.
unfoldable pub add_link :
    String → String → Option ℕ → Option ℕ → Option ℕ → Opts → Topo → Result (Topo × ℕ)
unfolding add_port add_edge
add_link node1 node2 port1 port2 key opts t = add_port node1 node2 port1 port2 t >>= λ (t', p1, p2).
    let (g, k) =
      add_edge node1 node2 key
        (record {
          node1 = node1;
          node2 = node2;
          port1 = p1;
          port2 = p2;
          opts = opts_or opts t.lopts;
        })
        t'.g in
    ok (record t' { g = g }, k)
