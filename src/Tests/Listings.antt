-- ===== src/Tests/Listings.antt =====
-- Small topologies, what they list and the network that is built of one.
use mathlib.Core.List.{Perm}
use faultynet.Shared.{
  All, eq_iff, map, ℕ, ◌++◌, ◌≡◌, refl, true, false, some, none, List, [], ◌∷◌, ok, err, String,
  Result, arith,
}
use faultynet.Shared.Sorting.{IsSortedBy}
use faultynet.Topology.{Topo, add_host, add_switch, add_link}
use faultynet.Topology.Known.{IsGrown}
use faultynet.Topology.Natural.{natural, key_less, number, word}
use faultynet.Topology.Listing.{links, hosts, switches, nodes, node_names, link_info}
use faultynet.Topology.Listing.Edges.{IsShared, edge_at}
use faultynet.Topology.Listing.Reading.{described, links-add_link}
use faultynet.Topology.Listing.Nodes.{IsKind, hosts-switches}
use faultynet.Topology.Listing.Built.{IsBuilt, fresh, started, hosted, switched, linked}
use faultynet.Interfaces.{Store}
use faultynet.Emulation.{Member, add_controller}
use faultynet.Emulation.Building.{
  Site, instance_of, build_from_topo, with_controllers, add_defaults,
}
use faultynet.Emulation.Building.Placed.{IsPlaced, build_from_topo-IsPlaced}
use faultynet.Topology.Listing.Slots.{IsPlain}
use faultynet.Topology.Listing.Slots
use faultynet.Emulation.Building.Named.{names, HasOwnIds}
use faultynet.Emulation.Building.Complete.{ends_of, edge_ends, build_from_topo_complete}
use faultynet.Tests.Emulations.{no_nodes}

split_name : natural "h12x" ≡ word "h" ∷ number 12 ∷ word "x" ∷ []
unfolding natural
split_name = refl

two_before_ten : key_less (natural "h2") (natural "h10") ≡ true
unfolding natural key_less
two_before_ten = refl

abbrev start : Topo
start = fresh [] [] []

-- Two hosts and a switch.
abbrev star : Topo
star = add_switch "s1" [] (add_host "h2" [] (add_host "h10" [] start))

star-IsBuilt : IsBuilt star
star-IsBuilt = switched "s1" [] (hosted "h2" [] (hosted "h10" [] (started [] [] [])))

sorted_hosts : hosts true star ≡ ok ("h2" ∷ "h10" ∷ [])
unfolding hosts add_host add_switch
sorted_hosts = refl

hosts-switches_example :
    (hs ss : List String) × (hosts true star ≡ ok hs)
    × (switches true star ≡ ok ss)
    × All (IsKind false star) hs
    × All (IsKind true star) ss
    × Perm (hs ++ ss) (node_names star.g)
    × IsSortedBy key_less natural (nodes true star)
hosts-switches_example = hosts-switches true star

links-add_link_example :
    (t' : Topo) × (k p q : ℕ) × (add_link "h10" "s1" none none none [] star ≡ ok (t', k))
    × Perm
        (links true false t')
        (edge_at "h10" "s1" k (described "h10" "s1" p q [] star) ∷ links true false star)
    × (link_info "h10" "s1" (some k) t' ≡ ok (described "h10" "s1" p q [] star))
    × (link_info "s1" "h10" (some k) t' ≡ ok (described "h10" "s1" p q [] star))
    × IsShared t'.g.edge
    × IsGrown star t'
unfolding add_host add_switch faultynet.Shared.lookup faultynet.Topology.entry_of
links-add_link_example =
    links-add_link true false "h10" "s1" none none none [] star (_, refl) (_, refl) (λ a b. refl) tt

abbrev topo_of : Result (Topo × ℕ) → Topo
topo_of (ok (t, k)) = t
topo_of (err e) = start

-- The same with a link.
abbrev joined_star : Topo
joined_star = topo_of (add_link "h10" "s1" none none none [] star)

joined_star-IsBuilt : IsBuilt joined_star
unfolding add_host add_switch add_link faultynet.Shared.lookup
joined_star-IsBuilt =
    linked {t = star} {t' = joined_star} {k = 1} "h10" "s1" none none none [] star-IsBuilt (_, refl)
      (_, refl) tt refl

joined_hosts : hosts true joined_star ≡ ok ("h2" ∷ "h10" ∷ [])
unfolding hosts add_host add_switch add_link
joined_hosts = refl

abbrev pub no_tables : Store
no_tables node = record { intfs = []; ports = []; name_to_intf = []; name_of = λ i. "" }

abbrev pub empty_site : Site
empty_site = record { net = no_nodes; links = []; store = no_tables; next = 100; attached = [] }

abbrev c0 : Member
c0 = record { id = 77; name = "c0"; params = [] }

build_from_topo_complete_example :
    (w1 : Site) × (ss : List String) × (build_from_topo
        (λ m. 0)
        (λ m. false)
        (instance_of c0 ∷ [])
        joined_star
        empty_site
      ≡ ok w1)
    × (switches true joined_star ≡ ok ss)
    × (names w1.net.hosts ≡ names empty_site.net.hosts ++ ("h2" ∷ "h10" ∷ []))
    × (names w1.net.switches ≡ names empty_site.net.switches ++ ss)
    × (map ends_of w1.links
        ≡ map ends_of empty_site.links ++ map edge_ends (links true false joined_star))
unfolding faultynet.Shared.lookup
build_from_topo_complete_example =
    build_from_topo_complete (λ m. 0) (λ m. false) (instance_of c0 ∷ []) joined_star empty_site
      ("h2" ∷ "h10" ∷ []) joined_hosts joined_star-IsBuilt tt (λ n m e. ground (arith, e)) refl
      (omega arith)

joined_star-IsPlain : IsPlain joined_star
unfolding add_host add_switch add_link faultynet.Shared.lookup
joined_star-IsPlain =
    Slots.linked {t = star} {t' = joined_star} {k = 1} "h10" "s1" []
      (Slots.switched "s1" []
        (Slots.hosted "h2" [] (Slots.hosted "h10" [] (Slots.started [] [] []) refl) refl) refl)
      (λ e. let same : false ≡ true = (eq_iff "h10" "s1").1 e in cc) (_, refl) (_, refl) refl

own_controller :
    HasOwnIds (record empty_site { net = with_controllers (instance_of c0 ∷ []) [] no_nodes })
unfolding add_defaults add_controller faultynet.Shared.lookup faultynet.Shared.insert
own_controller = record {
  below = λ n m h. ground (arith, h);
  one_name =
      λ n j m x found_n found_j e. ground (arith, eq_iff "c0" n, eq_iff "c0" j, found_n, found_j);
}

build_from_topo-IsPlaced_example :
    (w1 : Site) × (build_from_topo
        (λ m. 0)
        (λ m. false)
        (instance_of c0 ∷ [])
        joined_star
        empty_site
      ≡ ok w1)
    × (map ends_of w1.links ≡ map edge_ends (links true false joined_star))
    × All (IsPlaced w1) w1.links
unfolding faultynet.Shared.lookup
build_from_topo-IsPlaced_example =
    build_from_topo-IsPlaced (λ m. 0) (λ m. false) (instance_of c0 ∷ []) joined_star empty_site
      ("h2" ∷ "h10" ∷ []) joined_hosts joined_star-IsPlain tt (λ n m e. ground (arith, e))
      own_controller refl (omega arith) refl
