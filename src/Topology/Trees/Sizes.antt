-- ===== src/Topology/Trees/Sizes.antt =====
-- How large a tree is.
use faultynet.Shared.{
  ℕ, zero, suc, ◌+◌, ◌*◌, ◌^◌, ◌≡◌, refl, ap, sym, ◌∙◌, arith, Result, ok, String, [], Bool, true,
  false, none, some, inl, inr, Option-cases, lookup, ◌≤◌, ok-injective, err-ne-ok,
}
use mathlib.Core.Logic.{◌↔◌}
use native.Mathlib.Nat.{pow-succ', pow-zero}
use faultynet.Topology.Known.{
  IsKnown, IsGrown, add_host-IsKnown, add_host-IsGrown, add_switch-IsKnown, add_switch-IsGrown,
  join_known,
}
use faultynet.Topology.{Topo, add_switch, is_switch}
use faultynet.Topology.Trees.Nodes.{
  IsNumbered, hosted-IsNumbered, switched-IsNumbered, same-IsNumbered, host_numbers, switch_numbers,
}
use faultynet.Topology.Trees.{TreeTopo, add_leaf, add_children, add_tree, tree, numbered}

-- The switches of a tree.
abbrev pub switches : ℕ → ℕ → ℕ
switches zero fanout = 0
switches (suc depth) fanout = 1 + fanout * switches depth fanout

-- The hosts of a tree.
abbrev pub hosts : ℕ → ℕ → ℕ
hosts zero fanout = 1
hosts (suc depth) fanout = fanout * hosts depth fanout

-- What a function that adds a subtree of `h` hosts and `s` switches does to a tree.
pub record IsAdded (h s : ℕ) (t : TreeTopo) (r : TreeTopo × String) : Type 0 where
  pub host_num : r.0.host_num ≡ t.host_num + h
  pub switch_num : r.0.switch_num ≡ t.switch_num + s
  pub known : IsKnown r.1 r.0.topo
  pub grown : IsGrown t.topo r.0.topo
  pub keeps : IsNumbered t → IsNumbered r.0

add_children-IsAdded :
    (child : TreeTopo → Result (TreeTopo × String)) (node : String) (h s : ℕ)
    → ((t : TreeTopo) → (r : TreeTopo × String) × (child t ≡ ok r) × IsAdded h s t r)
    → (fanout : ℕ) (t : TreeTopo) → IsKnown node t.topo
    → (t' : TreeTopo) × (add_children child node fanout t ≡ ok t')
      × IsAdded (fanout * h) (fanout * s) t (t', node)
unfolding add_children
add_children-IsAdded child node h s adds zero t k = (
  t,
  refl,
  record {
    host_num = omega arith;
    switch_num = omega arith;
    known = k;
    grown = λ n x. x;
    keeps = λ x. x;
  },
)
add_children-IsAdded child node h s adds (suc fanout) t k =
    let (r, e, one) = adds t in
    let (topo, e', g, same) = join_known node r.1 r.0.topo (one.grown node k) one.known in
    let (t', e'', rest) =
      add_children-IsAdded child node h s adds fanout (record r.0 { topo = topo })
        (g node (one.grown node k)) in
    (
      t',
      rw (e, e', e'') refl,
      record {
        host_num = ground (arith, one.host_num, rest.host_num);
        switch_num = ground (arith, one.switch_num, rest.switch_num);
        known = rest.known;
        grown = λ n x. rest.grown n (g n (one.grown n x));
        keeps = λ x. rest.keeps (same-IsNumbered r.0 (one.keeps x) topo same);
      },
    )

add_tree-IsAdded :
    (depth fanout : ℕ) (t : TreeTopo)
    → (r : TreeTopo × String) × (add_tree depth fanout t ≡ ok r)
      × IsAdded (hosts depth fanout) (switches depth fanout) t r
unfolding add_tree add_leaf
add_tree-IsAdded zero fanout t = (
  _,
  refl,
  record {
    host_num = refl;
    switch_num = omega arith;
    known = add_host-IsKnown (numbered "h" t.host_num) [] t.topo;
    grown = add_host-IsGrown (numbered "h" t.host_num) [] t.topo;
    keeps = hosted-IsNumbered t;
  },
)
add_tree-IsAdded (suc depth) fanout t =
    let node = numbered "s" t.switch_num in
    let begun : TreeTopo = record t {
      topo = add_switch node [] t.topo;
      switch_num = t.switch_num + 1;
    } in
    let (t', e, all) =
      add_children-IsAdded (add_tree depth fanout) node (hosts depth fanout) (switches depth fanout)
        (add_tree-IsAdded depth fanout) fanout begun (add_switch-IsKnown node [] t.topo) in
    (
      (t', node),
      rw e refl,
      record {
        host_num = all.host_num;
        switch_num = omega (arith, all.switch_num);
        known = all.known;
        grown = λ n x. all.grown n (add_switch-IsGrown node [] t.topo n x);
        keeps = λ x. all.keeps (switched-IsNumbered t x);
      },
    )

hosts-power : (depth fanout : ℕ) → hosts depth fanout ≡ fanout ^ depth
hosts-power zero fanout = sym (pow-zero fanout)
hosts-power (suc depth) fanout =
    ap (λ h. fanout * h) (hosts-power depth fanout) ∙ sym (pow-succ' fanout depth)

-- The names that a prefix and the numbers from 1 to `k` make.
abbrev pub IsOneOf : String → ℕ → String → Type 0
IsOneOf p k n = (m : ℕ) × (1 ≤ m) × (m ≤ k) × (n ≡ numbered p m)

begun-IsNumbered :
    (t : Topo) → t.g.node ≡ [] → IsNumbered (record { topo = t; host_num = 1; switch_num = 1 })
unfolding lookup
begun-IsNumbered t h = record {
  first_host = omega arith;
  first_switch = omega arith;
  host_kinds = λ m low high. absurd (omega (arith, low, high));
  switch_kinds = λ m low high. absurd (omega (arith, low, high));
  only = λ n (v, k). let none_there : none ≡ some v = rw h at k in absurd cc;
}

kind-IsKnown : (n : String) (b : Bool) (t : Topo) → is_switch n t ≡ ok b → IsKnown n t
unfolding is_switch
kind-IsKnown n b t h = elim (Option-cases (lookup n t.g.node)) [
  | inl missing ↦ absurd (err-ne-ok (rw (is_switch, missing) at h))
  | inr found ↦ found
]

module _ (r : TreeTopo) (x : IsNumbered r) (h s : ℕ) (hosts_end : r.host_num ≡ 1 + h)
    (switches_end : r.switch_num ≡ 1 + s) where
  hosts_exactly : (n : String) → (is_switch n r.topo ≡ ok false) ↔ IsOneOf "h" h n
  hosts_exactly n = (
    λ k. elim (x.only n (kind-IsKnown n false r.topo k)) [
      | inl (m, low, high, e) ↦ (m, low, omega (arith, high, hosts_end), e)
      | inr (m, low, high, e) ↦
          let both : true ≡ false =
            ok-injective
              (sym (x.switch_kinds m low high) ∙ ap (λ n. is_switch n r.topo) (sym e) ∙ k) in
          absurd cc
    ],
    λ (m, low, high, e).
        ap (λ n. is_switch n r.topo) e ∙ x.host_kinds m low (omega (arith, high, hosts_end)),
  )

  switches_exactly : (n : String) → (is_switch n r.topo ≡ ok true) ↔ IsOneOf "s" s n
  switches_exactly n = (
    λ k. elim (x.only n (kind-IsKnown n true r.topo k)) [
      | inr (m, low, high, e) ↦ (m, low, omega (arith, high, switches_end), e)
      | inl (m, low, high, e) ↦
          let both : true ≡ false =
            ok-injective (sym k ∙ ap (λ n. is_switch n r.topo) e ∙ x.host_kinds m low high) in
          absurd cc
    ],
    λ (m, low, high, e).
        ap (λ n. is_switch n r.topo) e ∙ x.switch_kinds m low (omega (arith, high, switches_end)),
  )

-- A tree can be built on every topology without nodes, for every depth and fanout. The hosts of its
-- graph are exactly h1, h2 and so on to fanout to the power of depth, its switches are exactly s1, s2
-- and so on to the sum of the lower powers, and different numbers give different names.
pub tree_built :
    (depth fanout : ℕ) (t : Topo)
    → t.g.node ≡ []
    → (r : TreeTopo) × (tree depth fanout t ≡ ok r)
      × ((n : String) → (is_switch n r.topo ≡ ok false) ↔ IsOneOf "h" (fanout ^ depth) n)
      × ((n : String) → (is_switch n r.topo ≡ ok true) ↔ IsOneOf "s" (switches depth fanout) n)
      × ((m k : ℕ) → numbered "h" m ≡ numbered "h" k → m ≡ k)
      × ((m k : ℕ) → numbered "s" m ≡ numbered "s" k → m ≡ k)
unfolding tree
tree_built depth fanout t empty =
    let (r, e, all) =
      add_tree-IsAdded depth fanout (record { topo = t; host_num = 1; switch_num = 1 }) in
    let x = all.keeps (begun-IsNumbered t empty) in
    let power = all.host_num ∙ ap (λ x. 1 + x) (hosts-power depth fanout) in
    (
      r.0,
      rw e refl,
      hosts_exactly r.0 x (fanout ^ depth) (switches depth fanout) power all.switch_num,
      switches_exactly r.0 x (fanout ^ depth) (switches depth fanout) power all.switch_num,
      host_numbers,
      switch_numbers,
    )
