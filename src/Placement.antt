-- ===== src/Placement.antt =====
-- examples/cluster.py: the placers, which say on which server each node of a cluster runs. Servers and
-- nodes are their names.
pub mod Bins
pub mod Colocated
pub mod Halves
use faultynet.Shared.{
  ℕ, zero, suc, ◌+◌, ◌/◌, ◌%◌, ◌==◌, String, str_eq, Bool, true, false, ◌&&◌, Option, none, some,
  List, [], ◌∷◌, ◌++◌, any, length, take, get_elem?, Dict, lookup, insert, Result, ok, err,
  zero_division, value_error, index_error, key_error, attribute_error, exception, ◌>>=◌,
  if◌then◌else◌,
}

pub record Placer : Type 0 where
  pub servers : List String
  pub nodes : List String
  pub hosts : List String
  pub switches : List String
  pub controllers : List String
  pub links : List (String × String)

-- `Placer.place`
abbrev pub place_local : String → String
place_local node = "localhost"

-- `RandomPlacer.place`, for a number that `randrange` chooses below the number of servers; it raises
-- a ValueError where there is none.
unfoldable pub place_random : (ℕ → ℕ) → Placer → Result String
place_random randrange self =
    if length self.servers == 0
    then err value_error
    else elim (get_elem? self.servers (randrange (length self.servers))) [
      | none ↦ err index_error
      | some s ↦ ok s
    ]

-- `x in xs`
abbrev pub has : String → List String → Bool
has x = any (str_eq x)

-- `{ server: quotient for server in servers }`
unfoldable pub base_sizes : ℕ → List String → Dict ℕ → Dict ℕ
unfolding insert
base_sizes q [] sizes = sizes
base_sizes q (s ∷ servers) sizes = base_sizes q servers (insert s q sizes)

-- `binsizes[ server ] += 1`
unfoldable pub add_one : List String → Dict ℕ → Result (Dict ℕ)
unfolding lookup insert
add_one [] sizes = ok sizes
add_one (s ∷ servers) sizes = elim (lookup s sizes) [
  | none ↦ err key_error
  | some n ↦ add_one servers (insert s (n + 1) sizes)
]

-- `n * [ server ]`
abbrev pub replicate : ℕ → String → List String
replicate zero s = []
replicate (suc n) s = s ∷ replicate n s

-- `sum( [ binsizes[ server ] * [ server ] for server in servers ], [] )`
unfoldable pub tickets : List String → Dict ℕ → Result (List String)
unfolding lookup
tickets [] sizes = ok []
tickets (s ∷ servers) sizes = elim (lookup s sizes) [
  | none ↦ err key_error
  | some n ↦ tickets servers sizes >>= λ rest. ok (replicate n s ++ rest)
]

-- `dict( zip( nodes, tickets ) )`
unfoldable pub assign : List String → List String → Dict String → Dict String
unfolding insert
assign [] ts d = d
assign (n ∷ nodes) [] d = d
assign (n ∷ nodes) (t ∷ ts) d = assign nodes ts (insert n t d)

-- `SwitchBinPlacer.bin`
unfoldable pub bin : List String → List String → Result (Dict String)
unfolding base_sizes add_one tickets assign
bin nodes servers =
    if length servers == 0
    then err zero_division
    else (let q = length nodes / length servers in
        let r = length nodes % length servers in
        add_one (take r servers) (base_sizes q servers []) >>= λ sizes.
        tickets servers sizes >>= λ ts. ok (assign nodes ts []))

-- The switch that a host is connected to last.
unfoldable pub switch_for : Placer → List (String × String) → Dict String → Dict String
unfolding insert
switch_for self [] d = d
switch_for self ((src, dst) ∷ links) d =
    let d1 = if has src self.hosts && has dst self.switches then insert src dst d else d in
    switch_for self links
      (if has dst self.hosts && has src self.switches then insert dst src d1 else d1)

-- `placement.update( ... )`
unfoldable pub merge : Dict String → Dict String → Dict String
unfolding insert
merge d [] = d
merge d ((k, v) ∷ more) = merge (insert k v d) more

-- Co-locate a host with its switch.
unfoldable pub colocate : String → Dict String → Dict String → Result (Dict String)
unfolding lookup insert
colocate h near placement = elim (lookup h placement) [
  | some s ↦ ok placement
  | none ↦ elim (lookup h near) [
    | none ↦ err exception
    | some switch ↦ elim (lookup switch placement) [
      | none ↦ err key_error
      | some s ↦ ok (insert h s placement)
    ]
  ]
]

unfoldable pub colocate_all : List String → Dict String → Dict String → Result (Dict String)
unfolding colocate
colocate_all [] near placement = ok placement
colocate_all (h ∷ hosts) near placement = colocate h near placement >>= colocate_all hosts near

-- `SwitchBinPlacer.calculatePlacement`
unfoldable pub calculate_placement : Placer → Result (Dict String)
unfolding bin merge switch_for colocate_all
calculate_placement self = bin self.switches self.servers >>= λ switches.
    bin self.controllers self.servers >>= λ controllers.
    colocate_all self.hosts (switch_for self self.links []) (merge switches controllers)

-- `SwitchBinPlacer.place`
unfoldable pub place_switch_bin : String → Dict String → Result String
unfolding lookup
place_switch_bin node placement = elim (lookup node placement) [
  | none ↦ err key_error
  | some s ↦ ok s
]

-- A `HostSwitchBinPlacer`: how many nodes of each kind go to one server, and how many are placed.
pub record HostSwitchBins : Type 0 where
  pub placer : Placer
  pub hbin : ℕ
  pub sbin : ℕ
  pub cbin : ℕ
  pub hind : ℕ
  pub sind : ℕ
  pub cind : ℕ

-- `max( int( n / scount ), 1 )`
abbrev pub at_least_one : ℕ → ℕ
at_least_one zero = 1
at_least_one (suc n) = suc n

unfoldable pub host_switch_bins : Placer → Result HostSwitchBins
host_switch_bins p =
    let scount = length p.servers in
    if scount == 0
    then err zero_division
    else ok (record {
      placer = p;
      hbin = at_least_one (length p.hosts / scount);
      sbin = at_least_one (length p.switches / scount);
      cbin = at_least_one (length p.controllers / scount);
      hind = 0;
      sind = 0;
      cind = 0;
    })

-- `self.servdict[ ind / bin ]`: the quotient is a float, which is a key only where it is whole.
unfoldable pub server_at : ℕ → ℕ → List String → Result String
server_at ind bin servers =
    if bin == 0
    then err zero_division
    else if ind % bin == 0
    then (elim (get_elem? servers (ind / bin)) [ none ↦ err key_error | some s ↦ ok s ])
    else err key_error

-- `HostSwitchBinPlacer.place`
unfoldable pub place_bin : String → HostSwitchBins → Result (String × HostSwitchBins)
unfolding server_at
place_bin node self =
    if has node self.placer.hosts
    then (server_at self.hind self.hbin self.placer.servers >>= λ s.
        ok (s, record self { hind = self.hind + 1 }))
    else if has node self.placer.switches
    then (server_at self.sind self.sbin self.placer.servers >>= λ s.
        ok (s, record self { sind = self.sind + 1 }))
    else if has node self.placer.controllers
    then (server_at self.cind self.cbin self.placer.servers >>= λ s.
        ok (s, record self { cind = self.cind + 1 }))
    else (server_at 0 1 self.placer.servers >>= λ s. ok (s, self))

-- The nodes that are placed, one after another.
unfoldable pub place_all : List String → HostSwitchBins → Result (List String)
unfolding place_bin
place_all [] self = ok []
place_all (n ∷ nodes) self =
    place_bin n self >>= λ (s, next). place_all nodes next >>= λ rest. ok (s ∷ rest)
