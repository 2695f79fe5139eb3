-- ===== src/Controllers/MostUsedLink.antt =====
-- MostUsedLinkFaultController.py: each run adds the link that had the most traffic since the last.
pub mod Choice
pub mod Growth
use Prim.Native.Char.{Char}
use faultynet.Shared.{
  ℕ, suc, String, Bool, false, Option, none, some, List, [], ◌∷◌, ◌++◌, length, set, get_elem?, any,
  ℤ, pos, negsuc, ◌+ℤ◌, ◌-ℤ◌, Result, ok, err, index_error, ◌>>=◌, min_ℤ, ltb_ℤ, cat, show_ℕ,
  if◌then◌else◌, traverse,
}
use faultynet.Values.{Floats, text, to_int}
use faultynet.Injectors.Link.{LinkInjector}
use faultynet.Controllers.AgnosticLink.{AgnosticLink, HashKey, is_same_element}
use faultynet.Controllers.LinkPairs.{
  End, LinkConfig, LinkFault, int_or, link_fault_of, get_injectors_for_ends,
}
use faultynet.Controllers.RandomLink.{maxsize, mode_or_automatic}
use faultynet.Controllers.Runs.{Controller, idle}

-- `target_links_list` holds the objects; a reference is a place in it. The lists hold references.
pub record MostUsedLinks (F : Floats) : Type 0 where
  pub end_number_of_links : ℤ
  pub target_links_list : List AgnosticLink
  pub links_to_inject : List ℕ
  pub mode : String
  pub fault : LinkFault F

unfoldable pub agnostic_link : List End → Result AgnosticLink
agnostic_link (a ∷ b ∷ rest) = ok (record {
  link1_pid = a.pid;
  link1_name = a.interface_name;
  link1_node_name = a.node_name;
  link2_pid = b.pid;
  link2_name = b.interface_name;
  link2_node_name = b.node_name;
  traffic = pos 0;
})
agnostic_link _ = err index_error

-- `_configByFile`
unfoldable pub config_most_used :
    {F : Floats} → (Char → Bool) → LinkConfig F → Result (MostUsedLinks F)
unfolding agnostic_link link_fault_of
config_most_used is_word config = int_or config.end_links (pos maxsize) >>= λ last.
    traverse agnostic_link config.links >>= λ links. link_fault_of is_word config >>= λ fault.
    ok (record {
      end_number_of_links = last;
      target_links_list = links;
      links_to_inject = [];
      mode = mode_or_automatic config.mode;
      fault = fault;
    })

-- The controller of numbered runs that `go` makes of it.
unfoldable pub most_used_runs : {F : Floats} → MostUsedLinks F → Controller
most_used_runs self = record {
  mode = self.mode;
  first_run = pos 1;
  last_run = min_ℤ self.end_number_of_links (pos (length self.target_links_list));
  is_active = false;
  do_next_run = false;
  listening = false;
  phase = idle;
  inbox = [];
  done_sent = false;
}

-- What `run` gives as the standard output of a command.
abbrev pub Output : Type 0
Output = String → String

-- The command that reads a counter of the link's first interface.
unfoldable pub counter_command : String → AgnosticLink → String
unfolding cat
counter_command counter link = cat (
    "nsenter --target "
    ∷ show_ℕ link.link1_pid
    ∷ " --net --pid --net "
    ∷ "ifconfig "
    ∷ link.link1_name
    ∷ counter
    ∷ [])

module _ (F : Floats) (run : Output) where
  -- `int(completed_process.stdout)`
  unfoldable read_counter : String → AgnosticLink → Result ℤ
  unfolding counter_command to_int
  read_counter counter link = to_int {F = F} (text (run (counter_command counter link)))

  unfoldable pub get_traffic_on_link : AgnosticLink → Result ℤ
  unfolding read_counter
  get_traffic_on_link link =
      read_counter " | grep  \"RX packets\" | awk '{print $3}'" link >>= λ received.
      read_counter " | grep \"TX packets\" | awk '{print $3}'" link >>= λ transmitted.
      ok (transmitted +ℤ received)

-- `most_trafficked_link` and `max_traffic_on_link`
pub record Busiest : Type 0 where
  pub link : Option ℕ
  pub max_traffic : ℤ

abbrev pub no_link : Busiest
no_link = record { link = none; max_traffic = negsuc 0 }

-- One round: the traffic since the last run decides.
unfoldable pub busier : ℕ → ℤ → Busiest → Busiest
busier i since best =
    if ltb_ℤ best.max_traffic since then record { link = some i; max_traffic = since } else best

module _ (traffic : AgnosticLink → Result ℤ) where
  -- The loop over the links that have no fault. The traffic of each is noted in its object.
  unfoldable pub most_trafficked :
      List (ℕ × AgnosticLink) → Busiest → List AgnosticLink → Result (Busiest × List AgnosticLink)
  unfolding busier
  most_trafficked [] best links = ok (best, links)
  most_trafficked ((i, link) ∷ rest) best links = traffic link >>= λ now.
      most_trafficked rest (busier i (now -ℤ link.traffic) best)
        (set links i (record link { traffic = now }))

-- The objects with their references, from a first reference.
abbrev pub enumerate : ℕ → List AgnosticLink → List (ℕ × AgnosticLink)
enumerate i [] = []
enumerate i (link ∷ links) = (i, link) ∷ enumerate (suc i) links

-- The objects that a list refers to.
abbrev pub refer : List AgnosticLink → List ℕ → List (ℕ × AgnosticLink)
refer links [] = []
refer links (i ∷ is) = elim (get_elem? links i) [
  | none ↦ refer links is
  | some link ↦ (i, link) ∷ refer links is
]

module _ (hash : HashKey → ℕ) where
  abbrev pub is_element : AgnosticLink → List (ℕ × AgnosticLink) → Bool
  is_element link entries = any (λ entry. is_same_element hash entry.1 link) entries

  -- The elements of `set(links) - set(others)`: of equal links the first one counts.
  unfoldable pub set_difference :
      List (ℕ × AgnosticLink) → List (ℕ × AgnosticLink) → List (ℕ × AgnosticLink)
  unfolding is_same_element
  set_difference [] others = []
  set_difference ((i, link) ∷ links) others =
      let later = set_difference links ((i, link) ∷ others) in
      let same = set_difference links others in
      if is_element link others then same else (i, link) ∷ later

-- `self.links_to_inject.append` of the link found, if there is one
abbrev pub append_found : List ℕ → Option ℕ → List ℕ
append_found is none = is
append_found is (some i) = is ++ (i ∷ [])

module _ {F : Floats} where
  -- `_get_injectors_for_link`
  unfoldable pub get_injectors : LinkFault F → AgnosticLink → Result (List (LinkInjector F))
  unfolding get_injectors_for_ends
  get_injectors fault link =
      get_injectors_for_ends fault
        (record {
          pid = link.link1_pid;
          interface_name = link.link1_name;
          node_name = link.link1_node_name;
        })
        (record {
          pid = link.link2_pid;
          interface_name = link.link2_name;
          node_name = link.link2_node_name;
        })

  unfoldable pub injectors_for :
      LinkFault F → List (ℕ × AgnosticLink) → Result (List (LinkInjector F))
  unfolding get_injectors
  injectors_for fault [] = ok []
  injectors_for fault ((i, link) ∷ links) =
      let rest = injectors_for fault links in
      get_injectors fault link >>= λ two. rest >>= λ others. ok (two ++ others)

  -- `_do_next_iteration`: the controller and the injectors that run concurrently. `order` is the
  -- order of a set.
  unfoldable pub do_next_iteration :
      (HashKey → ℕ)
      → (List (ℕ × AgnosticLink) → List (ℕ × AgnosticLink))
      → Output
      → MostUsedLinks F
      → Result (MostUsedLinks F × List (LinkInjector F))
  unfolding set_difference most_trafficked get_traffic_on_link injectors_for
  do_next_iteration hash order run self =
      let links = self.target_links_list in
      let uninjected =
        order (set_difference hash (enumerate 0 links) (refer links self.links_to_inject)) in
      most_trafficked (get_traffic_on_link F run) uninjected no_link links >>= λ (best, noted).
      let injected = append_found self.links_to_inject best.link in
      injectors_for self.fault (refer noted injected) >>= λ is.
      ok (record self { target_links_list = noted; links_to_inject = injected }, is)
