-- ===== src/Tests/Lives.antt =====
-- The start and the batches of small networks.
use faultynet.Shared.{◌≡◌, refl, String, str_eq, if◌then◌else◌, List, [], ◌∷◌, err, attribute_error}
use faultynet.Emulation.{Member}
use faultynet.Emulation.Building.{Site}
use faultynet.Emulation.Lifecycle.{static_arp}
use faultynet.Tests.Emulations.{no_nodes}
use faultynet.Tests.Listings.{empty_site}

abbrev member : Member
member = record { id = 1; name = "h1"; params = [] }

-- One host and two switches, which stop in a batch.
abbrev small : Site
small = record empty_site {
  net = record no_nodes {
    hosts = member ∷ [];
    switches =
        record { id = 2; name = "s1"; params = [] }
        ∷ record { id = 3; name = "s2"; params = [] }
        ∷ [];
  };
}

-- A host without interfaces has no address.
no_arps : static_arp small (1 ∷ 2 ∷ []) (1 ∷ 2 ∷ []) ≡ err attribute_error
unfolding static_arp
no_arps = refl

-- Switches of two classes, which alternate.
abbrev class_at : Member → String
class_at m = if str_eq m.name "s2" then "UserSwitch" else "OVSSwitch"

abbrev named : String → Member
named n = record member { name = n }

abbrev three : List Member
three = named "s1" ∷ named "s2" ∷ named "s3" ∷ []
