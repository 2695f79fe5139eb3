-- ===== src/Tests/Topologies.antt =====
-- Small topologies.
use mathlib.Core.Logic.{◌↔◌}
use faultynet.Shared.{ℕ, String, ◌^◌, ◌≡◌, refl, true, false, [], ok}
use faultynet.Topology.{is_switch, Topo}
use faultynet.Topology.Trees.{TreeTopo, tree, numbered}
use faultynet.Topology.Trees.Sizes.{switches, IsOneOf, tree_built}

abbrev empty : Topo
empty = record {
  g = record { node = []; edge = [] };
  hopts = [];
  sopts = [];
  lopts = [];
  ports = [];
}

-- Three switches and four hosts.
tree_built_example :
    (r : TreeTopo) × (tree 2 2 empty ≡ ok r)
    × ((n : String) → (is_switch n r.topo ≡ ok false) ↔ IsOneOf "h" (2 ^ 2) n)
    × ((n : String) → (is_switch n r.topo ≡ ok true) ↔ IsOneOf "s" (switches 2 2) n)
    × ((m k : ℕ) → numbered "h" m ≡ numbered "h" k → m ≡ k)
    × ((m k : ℕ) → numbered "s" m ≡ numbered "s" k → m ≡ k)
tree_built_example = tree_built 2 2 empty refl
