-- ===== src/Tests/Clusters.antt =====
-- A cluster of two servers, and two switches that are started together.
use faultynet.Shared.{
  ℕ, ◌+◌, ◌/◌, ◌%◌, ◌≤◌, ◌≡◌, refl, String, Bool, true, false, List, [], ◌∷◌, map, concat, length,
  take, All, Dict, values, Result, ok, err, key_error, strip, arith, leb, if◌then◌else◌,
}
use faultynet.Switches.{OvsSwitch, batch_startup}
use faultynet.Switches.Batches.{render, saved, IsShort, batch_startup_complete}
use faultynet.Placement.{Placer, HostSwitchBins, has, bin, host_switch_bins, place_all}
use faultynet.Placement.Bins.{keys, occurrences, bin_even}
use faultynet.Placement.Halves.{place_all-hosts}

abbrev cluster : Placer
cluster = record {
  servers = "a" ∷ "b" ∷ [];
  nodes = [];
  hosts = "h1" ∷ "h2" ∷ "h3" ∷ [];
  switches = "s1" ∷ "s2" ∷ "s3" ∷ [];
  controllers = "c0" ∷ [];
  links = ("h1", "s1") ∷ ("s2", "h2") ∷ ("h3", "s3") ∷ ("s1", "s2") ∷ [];
}

bin_even_example :
    (d : Dict String) × (bin cluster.switches cluster.servers ≡ ok d)
    × (keys d ≡ cluster.switches)
    × (length (values d) ≡ 3)
    × ((s : String)
        → has s cluster.servers ≡ true
        → occurrences s (values d)
          ≡ (if has s (take (3 % 2) cluster.servers) then 3 / 2 + 1 else 3 / 2))
bin_even_example =
    bin_even cluster.switches cluster.servers (refl, (refl, (refl, tt))) (refl, (refl, tt))
      (omega arith)

-- Three hosts for two servers.
place_all-hosts_example :
    (bins : HostSwitchBins) × (host_switch_bins cluster ≡ ok bins)
    × (place_all cluster.hosts bins
        ≡ (if leb 3 2 then ok (take 3 cluster.servers) else err key_error))
place_all-hosts_example = place_all-hosts cluster (omega arith)

abbrev two_bridges : List OvsSwitch
two_bridges =
    record {
      deployed_name = "s1";
      batch = true;
      commands = " -- add-br s1" ∷ "add-port s1 s1-eth1" ∷ [];
    }
    ∷ record { deployed_name = "s2"; batch = true; commands = "-- add-br s2 " ∷ [] }
    ∷ []

two_runs :
    (batch_startup 40 false two_bridges).0
    ≡ "ovs-vsctl -- add-br s1" ∷ "ovs-vsctl add-port s1 s1-eth1" ∷ "ovs-vsctl -- add-br s2" ∷ []
unfolding batch_startup
two_runs = refl

batch_startup_complete_example :
    (groups : List (List String)) × ((batch_startup 40 false two_bridges).0 ≡ map render groups)
    × (concat groups ≡ map strip (saved two_bridges))
    × All (IsShort 40) (batch_startup 40 false two_bridges).0
unfolding strip
batch_startup_complete_example =
    batch_startup_complete 40 two_bridges
      ((omega arith, (omega arith, tt)), ((omega arith, tt), tt)) (omega arith)
