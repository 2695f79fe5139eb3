-- ===== src/Topology/Trees.antt =====
-- mininet/topo.py and mininet/topolib.py: the topologies that are built by their size.
pub mod Sizes
pub mod Nodes
use faultynet.Shared.{
  ℕ, zero, suc, ◌+◌, ◌-◌, ◌==◌, String, Option, none, some, [], ◌∷◌, Result, ok, ◌>>=◌, cat, show_ℕ,
  if◌then◌else◌,
}
use faultynet.Topology.{Topo, add_host, add_switch, add_link}

abbrev pub numbered : String → ℕ → String
numbered prefix n = cat (prefix ∷ show_ℕ n ∷ [])

-- `addLink` with no options, for its effect.
unfoldable pub join : String → String → Option ℕ → Option ℕ → Topo → Result Topo
unfolding add_link
join a b p q t = add_link a b p q none [] t >>= λ r. ok r.0

-- The hosts of `SingleSwitchTopo.build` from a number on.
unfoldable pub single_hosts : ℕ → ℕ → Topo → Result Topo
unfolding add_host join
single_hosts h zero t = ok t
single_hosts h (suc n) t =
    let host = numbered "h" h in
    join host "s1" none none (add_host host [] t) >>= single_hosts (suc h) n

unfoldable pub single_switch : ℕ → Topo → Result Topo
unfolding add_switch single_hosts
single_switch k t = single_hosts 1 k (add_switch "s1" [] t)

-- `SingleSwitchReversedTopo.build`: the ports of the switch count down.
unfoldable pub reversed_hosts : ℕ → ℕ → ℕ → Topo → Result Topo
unfolding add_host join
reversed_hosts k h zero t = ok t
reversed_hosts k h (suc n) t =
    let host = numbered "h" h in
    join host "s1" (some 0) (some (k - h + 1)) (add_host host [] t) >>= reversed_hosts k (suc h) n

unfoldable pub single_switch_reversed : ℕ → Topo → Result Topo
unfolding add_switch reversed_hosts
single_switch_reversed k t = reversed_hosts k 1 k (add_switch "s1" [] t)

-- `genHostName` of `LinearTopo`
abbrev pub linear_host : ℕ → ℕ → ℕ → String
linear_host n i j = if n == 1 then numbered "h" i else cat ("h" ∷ show_ℕ j ∷ "s" ∷ show_ℕ i ∷ [])

-- The hosts of one switch of `LinearTopo`.
unfoldable pub linear_hosts : ℕ → ℕ → String → ℕ → ℕ → Topo → Result Topo
unfolding add_host join
linear_hosts n i switch j zero t = ok t
linear_hosts n i switch j (suc m) t =
    let host = linear_host n i j in
    join host switch none none (add_host host [] t) >>= linear_hosts n i switch (suc j) m

abbrev join_last : String → Option String → Topo → Result Topo
join_last switch none t = ok t
join_last switch (some last) t = join switch last none none t

unfoldable pub linear_switches : ℕ → ℕ → ℕ → Option String → Topo → Result Topo
unfolding add_switch linear_hosts join
linear_switches n i zero last t = ok t
linear_switches n i (suc m) last t =
    let switch = numbered "s" i in
    linear_hosts n i switch 1 n (add_switch switch [] t)
    >>= join_last switch last
    >>= linear_switches n (suc i) m (some switch)

-- `LinearTopo.build` for `k` switches with `n` hosts each
unfoldable pub linear : ℕ → ℕ → Topo → Result Topo
unfolding linear_switches
linear k n t = linear_switches n 1 k none t

-- `TreeTopo`: the topology and the next numbers.
pub record TreeTopo : Type 0 where
  pub topo : Topo
  pub host_num : ℕ
  pub switch_num : ℕ

-- A leaf of `addTree`.
unfoldable pub add_leaf : TreeTopo → Result (TreeTopo × String)
unfolding add_host
add_leaf t =
    let node = numbered "h" t.host_num in
    ok (record t { topo = add_host node [] t.topo; host_num = t.host_num + 1 }, node)

-- The loop over the children, with the function that adds one.
unfoldable pub add_children :
    (TreeTopo → Result (TreeTopo × String)) → String → ℕ → TreeTopo → Result TreeTopo
unfolding join
add_children child node zero t = ok t
add_children child node (suc fanout) t = child t >>= λ (t', c).
    join node c none none t'.topo >>= λ topo.
    add_children child node fanout (record t' { topo = topo })

-- `addTree`: the tree, and the node added at its root.
unfoldable pub add_tree : ℕ → ℕ → TreeTopo → Result (TreeTopo × String)
unfolding add_switch add_leaf add_children
add_tree zero fanout t = add_leaf t
add_tree (suc depth) fanout t =
    let node = numbered "s" t.switch_num in
    add_children (add_tree depth fanout) node fanout
      (record t { topo = add_switch node [] t.topo; switch_num = t.switch_num + 1 })
    >>= λ t'. ok (t', node)

-- `TreeTopo.build`
unfoldable pub tree : ℕ → ℕ → Topo → Result TreeTopo
unfolding add_tree
tree depth fanout t =
    add_tree depth fanout (record { topo = t; host_num = 1; switch_num = 1 }) >>= λ r. ok r.0
