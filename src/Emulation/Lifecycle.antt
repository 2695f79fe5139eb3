-- ===== src/Emulation/Lifecycle.antt =====
-- mininet/net.py: `build`, `start`, `stop` and `isFaultControllerActive`. What the network does to its
-- nodes, links and terminals, and to the starter of its faults, is a list of acts.
pub mod Restart
pub mod Batched
use faultynet.Shared.{
  ℕ, zero, ◌+◌, ◌==◌, String, str_eq, Bool, true, false, not, Option, none, some, List, [], ◌∷◌,
  ◌++◌, any, map, concat, Result, ok, err, Exn, type_error, attribute_error, exception, ◌>>=◌,
  if◌then◌else◌,
}
use faultynet.Shared.Sorting.{after, sort_by}
use faultynet.Topology.{Topo}
use faultynet.Interfaces.{default_intf}
use faultynet.Emulation.{Member}
use faultynet.Emulation.Building.{Site, NetLink, Default, build_from_topo}

pub data Act : Type 0 where
  configured configured_bare : ℕ → Act
  terms_opened : Act
  arp_set : ℕ → ℕ → Act
  controller_started switch_started : ℕ → Act
  batch_started : List ℕ → Act
  waited mistyped starter_made faults_started : Act
  controller_stopped : ℕ → Act
  terms_stopped : Act
  link_stopped : ℕ → Act
  batch_stopped : List ℕ → Act
  switch_stopped switch_terminated host_terminated : ℕ → Act
  faults_stopped : Act

-- `self.faultControllerStarter`: a class, which may be no subclass of `BaseFaultControllerStarter` and
-- whose constructor may raise, or its object.
pub data FaultStarter : Type 0 where
  a_class : Bool → Option Exn → FaultStarter
  an_object : FaultStarter

pub record Life : Type 0 where
  pub site : Site
  pub topo : Option Topo
  pub in_namespace : Bool
  pub xterms : Bool
  pub auto_static_arp : Bool
  pub terms : ℕ
  pub built : Bool
  pub wait_conn : Bool
  pub fault_path : Option String
  pub starter : FaultStarter
  pub log : List Act

abbrev pub ids : List Member → List ℕ
ids = map (λ m. m.id)

abbrev pub logged : List Act → Life → Life
logged acts self = record self { log = self.log ++ acts }

-- `configHosts`
unfoldable pub config_hosts : Site → List Member → List Act
unfolding default_intf
config_hosts w [] = []
config_hosts w (h ∷ hosts) =
    (elim (default_intf (w.store h.id)) [ none ↦ configured_bare h.id | some i ↦ configured h.id ])
    ∷ config_hosts w hosts

-- One entry of `staticArp`, which reads the address of the destination's default interface.
abbrev pub arp_of : Site → ℕ → ℕ → Result Act
arp_of w src dst = elim (default_intf (w.store dst)) [
  | none ↦ err attribute_error
  | some i ↦ ok (arp_set src dst)
]

-- The loop of `staticArp` over the destinations
unfoldable pub arps_of : Site → ℕ → List ℕ → Result (List Act)
unfolding default_intf
arps_of w src [] = ok []
arps_of w src (dst ∷ hosts) =
    let rest = arps_of w src hosts in
    if src == dst then rest else arp_of w src dst >>= λ a. rest >>= λ acts. ok (a ∷ acts)

-- `staticArp`
unfoldable pub static_arp : Site → List ℕ → List ℕ → Result (List Act)
unfolding arps_of
static_arp w [] hosts = ok []
static_arp w (src ∷ srcs) hosts =
    let rest = static_arp w srcs hosts in
    arps_of w src hosts >>= λ acts. rest >>= λ more. ok (acts ++ more)

abbrev pub when : Bool → List Act → List Act
when b acts = if b then acts else []

-- The runs of equal classes: `groupby( switches, type )`
unfoldable pub add_to_groups : (Member → String) → Member → List (List Member) → List (List Member)
add_to_groups class_of s [] = (s ∷ []) ∷ []
add_to_groups class_of s ([] ∷ groups) = (s ∷ []) ∷ groups
add_to_groups class_of s ((t ∷ ts) ∷ groups) =
    if str_eq (class_of s) (class_of t) then (s ∷ t ∷ ts) ∷ groups else (s ∷ []) ∷ (t ∷ ts) ∷ groups

unfoldable pub group_by : (Member → String) → List Member → List (List Member)
unfolding add_to_groups
group_by class_of [] = []
group_by class_of (s ∷ switches) = add_to_groups class_of s (group_by class_of switches)

-- `groupby( sorted( self.switches, key=lambda s: str( type( s ) ) ), type )`
unfoldable pub batches : (Member → String) → List Member → List (List Member)
unfolding group_by sort_by after
batches class_of switches = group_by class_of (sort_by (λ x y. after y x) class_of switches)

module _ (class_of : Member → String)
    (batch_start batch_stop : Member → Option (List Member → List Member)) where
  -- The batches whose class has `batchStartup`.
  unfoldable pub start_batches : List (List Member) → List Act
  start_batches [] = []
  start_batches ([] ∷ groups) = start_batches groups
  start_batches ((s ∷ ss) ∷ groups) =
      let rest = start_batches groups in
      elim (batch_start s) [ none ↦ rest | some f ↦ batch_started (ids (s ∷ ss)) ∷ rest ]

  -- The batches whose class has `batchShutdown`, and the switches that it stopped.
  unfoldable pub stop_batches : List (List Member) → List Act × List ℕ
  stop_batches [] = ([], [])
  stop_batches ([] ∷ groups) = stop_batches groups
  stop_batches ((s ∷ ss) ∷ groups) =
      let rest = stop_batches groups in
      elim (batch_stop s) [
        | none ↦ rest
        | some f ↦ (batch_stopped (ids (s ∷ ss)) ∷ rest.0, ids (f (s ∷ ss)) ++ rest.1)
      ]

  -- `if switch not in stopped: switch.stop()`, and `terminate`
  unfoldable pub stop_switches : List ℕ → List ℕ → List Act
  stop_switches stopped [] = []
  stop_switches stopped (s ∷ switches) =
      let rest = switch_terminated s ∷ stop_switches stopped switches in
      if any (λ x. x == s) stopped then rest else switch_stopped s ∷ rest

  module _ (port_base : Member → ℕ) (is_ovs : Member → Bool) (defaults : List Default)
      (opened : ℕ) where
    abbrev pub make_nodes : Option Topo → Site → Result Site
    make_nodes none w = ok w
    make_nodes (some t) w = build_from_topo port_base is_ovs defaults t w

    abbrev pub arp_acts : Life → Site → Result (List Act)
    arp_acts self w =
        if self.auto_static_arp then static_arp w (ids w.net.hosts) (ids w.net.hosts) else ok []

    -- `build`, where `startTerms` opens as many terminals as given; `configureControlNetwork` raises unless a subclass overrides it.
    unfoldable pub build : Life → Result Life
    unfolding build_from_topo config_hosts static_arp
    build self = make_nodes self.topo self.site >>= λ w.
        if self.in_namespace
        then err exception
        else (arp_acts self w >>= λ arps. ok (record self {
          site = w;
          built = true;
          terms = if self.xterms then self.terms + opened else self.terms;
          log =
              self.log
              ++ (config_hosts w w.net.hosts ++ (when self.xterms (terms_opened ∷ []) ++ arps));
        }))

    -- The last part of `start`
    abbrev pub run_starter : FaultStarter → Life → Result Life
    run_starter an_object self = err type_error
    run_starter (a_class is_starter (some e)) self = err e
    run_starter (a_class is_starter none) self = ok (record self {
      starter = an_object;
      log =
          self.log
          ++ (when (not is_starter) (mistyped ∷ []) ++ (starter_made ∷ faults_started ∷ []));
    })

    abbrev pub start_fault_controller : Option String → Life → Result Life
    start_fault_controller none self = ok self
    start_fault_controller (some path) self =
        if str_eq path "" then ok self else run_starter self.starter self

    -- What `start` does between the building and the faults.
    abbrev pub started_acts : Life → List Act
    started_acts self =
        map controller_started (ids self.site.net.controllers)
        ++ (map switch_started (ids self.site.net.switches)
            ++ (start_batches (batches class_of self.site.net.switches)
                ++ when self.wait_conn (waited ∷ [])))

    -- `start`
    unfoldable pub start : Life → Result Life
    unfolding build start_batches batches
    start self = (if self.built then ok self else build self) >>= λ s.
        start_fault_controller s.fault_path (logged (started_acts s) s)

    -- What `stop` does before it stops the faults.
    abbrev pub stopped_acts : Life → List Act
    stopped_acts self =
        let batched = stop_batches (batches class_of self.site.net.switches) in
        map controller_stopped (ids self.site.net.controllers)
        ++ (when (not (self.terms == 0)) (terms_stopped ∷ [])
            ++ (map (λ l. link_stopped l.id) self.site.links
                ++ (batched.0
                    ++ (stop_switches batched.1 (ids self.site.net.switches)
                        ++ map host_terminated (ids self.site.net.hosts)))))

    abbrev pub stop_faults : Option String → FaultStarter → Life → Result Life
    stop_faults none starter self = ok self
    stop_faults (some path) (a_class is_starter outcome) self = err type_error
    stop_faults (some path) an_object self = ok (logged (faults_stopped ∷ []) self)

    -- `stop`
    unfoldable pub stop : Life → Result Life
    unfolding stop_batches batches stop_switches
    stop self = stop_faults self.fault_path self.starter (logged (stopped_acts self) self)
