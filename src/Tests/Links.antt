-- ===== src/Tests/Links.antt =====
-- The controllers over links at concrete networks.
use faultynet.Shared.{
  ℕ, get_elem?, ◌*◌, String, ◌≡◌, ◌≢◌, refl, true, false, none, some, List, [], ◌∷◌, ◌++◌, pos, ℤ,
  All, length, ok, Result, ◌⊎◌, arith, zero, suc, ◌≤◌,
}
use faultynet.Values.{text}
use faultynet.Injectors.Link.{LinkInjector}
use faultynet.Controllers.AgnosticLink.{AgnosticLink, HashKey}
use faultynet.Controllers.LinkPairs.{End, LinkFault, links_list}
use faultynet.Controllers.LinkPairs.Blacklist.{
  IsAllowed, AreEnds, allowed_links, links_list-IsAllowed,
}
use faultynet.Controllers.RandomLink.{
  RandomLinks, random_runs, iteration_returns, do_iteration_with_n_links,
}
use faultynet.Controllers.RandomLink.Sampling.{IsPair, iteration_injects}
use faultynet.Controllers.MostUsedLink.{
  MostUsedLinks, do_next_iteration, most_trafficked, no_link, refer, is_element, Busiest,
}
use faultynet.Controllers.MostUsedLink.Choice.{IsAtMost, IsReached, busiest_chosen}
use faultynet.Controllers.MostUsedLink.Growth.{iteration_grows}
use faultynet.Controllers.Runs.{Controller, start_injecting, wait_until_go, began, silent}
use faultynet.Controllers.Runs.Completion.{Alone, IsOver}
use faultynet.Controllers.RandomLink.Automatic.{runs_return, random_completes}
use faultynet.Tests.Samples.{thousandths, cables}

abbrev host_end : String → End
host_end i = record { pid = 41; interface_name = i; node_name = "h1" }

abbrev switch_end : String → End
switch_end i = record { pid = 42; interface_name = i; node_name = "s1" }

links_list-IsAllowed_example :
    All (IsAllowed ("s2" ∷ [])) (links_list (λ a b. true) ("s2" ∷ []) cables)
    × AreEnds (links_list (λ a b. true) ("s2" ∷ []) cables) (allowed_links ("s2" ∷ []) cables)
links_list-IsAllowed_example = links_list-IsAllowed (λ a b. true) ("s2" ∷ []) cables

abbrev loss : LinkFault thousandths
loss = record {
  fault_type = some "loss";
  fault_args = none;
  fault_pattern = "random";
  fault_pattern_args = some (text "30" ∷ []);
  injection_time = pos 2;
}

abbrev random_links : RandomLinks thousandths
random_links = record {
  start_number_of_links = pos 1;
  end_number_of_links = pos 9;
  target_links_list =
      (host_end "h1-eth0" ∷ switch_end "s1-eth1" ∷ [])
      ∷ (host_end "h1-eth1" ∷ switch_end "s1-eth2" ∷ [])
      ∷ [];
  mode = "automatic";
  fault = loss;
}

-- The first links of the list.
abbrev first_links : List (List End) → ℕ → List (List End)
first_links links zero = []
first_links [] (suc n) = []
first_links (link ∷ links) (suc n) = link ∷ first_links links n

first_links_choose :
    (k : ℕ)
    → k ≤ 2
    → (length (first_links random_links.target_links_list k) ≡ k)
      × All IsPair (first_links random_links.target_links_list k)
first_links_choose zero h = (refl, tt)
first_links_choose (suc zero) h = (refl, (omega arith, tt))
first_links_choose (suc (suc zero)) h = (refl, (omega arith, (omega arith, tt)))
first_links_choose (suc (suc (suc k))) h = absurd (omega (arith, h))

iteration_injects_example :
    (is : List (LinkInjector thousandths)) × (do_iteration_with_n_links first_links random_links
        (pos 2)
      ≡ ok is)
    × (length is ≡ 2 * 2)
unfolding random_runs
iteration_injects_example =
    iteration_injects first_links random_links "loss" 2 first_links_choose refl (omega arith)

abbrev first_cable : AgnosticLink
first_cable = record {
  link1_pid = 41;
  link1_name = "h1-eth0";
  link1_node_name = "h1";
  link2_pid = 42;
  link2_name = "s1-eth1";
  link2_node_name = "s1";
  traffic = pos 7;
}

abbrev second_cable : AgnosticLink
second_cable = record first_cable { link1_name = "h1-eth1"; link2_name = "s1-eth2" }

abbrev cable_traffic : AgnosticLink → Result ℤ
cable_traffic link = ok (pos link.link1_pid)

abbrev numbered_cables : List (ℕ × AgnosticLink)
numbered_cables = (0, first_cable) ∷ (1, second_cable) ∷ []

abbrev chosen_cable : Busiest × List AgnosticLink
chosen_cable = (
  record { link = some 0; max_traffic = pos 34 },
  record first_cable { traffic = pos 41 } ∷ record second_cable { traffic = pos 41 } ∷ [],
)

busiest_chosen_example :
    All (IsAtMost cable_traffic chosen_cable.0.max_traffic) numbered_cables
    × IsReached cable_traffic no_link chosen_cable.0 numbered_cables
unfolding most_trafficked
busiest_chosen_example =
    busiest_chosen cable_traffic numbered_cables (first_cable ∷ second_cable ∷ []) chosen_cable refl

abbrev most_used : MostUsedLinks thousandths
most_used = record {
  end_number_of_links = pos 9;
  target_links_list = first_cable ∷ second_cable ∷ [];
  links_to_inject = 0 ∷ [];
  mode = "automatic";
  fault = loss;
}

abbrev no_hash : HashKey → ℕ
no_hash key = 0

-- The second link is added.
abbrev after : MostUsedLinks thousandths
after = record most_used {
  target_links_list = first_cable ∷ record second_cable { traffic = pos 40 } ∷ [];
  links_to_inject = 0 ∷ 1 ∷ [];
}

iteration_of :
    (is : List (LinkInjector thousandths)) × (do_next_iteration no_hash
        (λ xs. xs)
        (λ c. "20")
        most_used
      ≡ ok (after, is))
unfolding do_next_iteration faultynet.Shared.int_of_text
iteration_of = (_, refl)

iteration_grows_example :
    (after.links_to_inject ≡ most_used.links_to_inject)
    ⊎ ((i : ℕ) × (link : AgnosticLink) × (after.links_to_inject
          ≡ most_used.links_to_inject ++ (i ∷ []))
        × (get_elem? most_used.target_links_list i ≡ some link)
        × All (λ j. j ≢ i) most_used.links_to_inject
        × (is_element no_hash link (refer most_used.target_links_list most_used.links_to_inject)
            ≡ false))
iteration_grows_example =
    iteration_grows no_hash (λ xs. xs) (λ c. "20") most_used after iteration_of.0 (λ P xs all. all)
      iteration_of.1

random_completes_example :
    (d : Controller) × Alone
      (runs_return "/sbin/tc" (λ n. first_links) random_links)
      (wait_until_go start_injecting (random_runs random_links))
      (began (pos 1) ∷ silent ∷ began (pos 2) ∷ silent ∷ silent ∷ [])
      d
    × IsOver true d
unfolding iteration_returns faultynet.Values.to_float faultynet.Injectors.Script.sleep
    faultynet.Injectors.Link.inject_by_pattern faultynet.Shared.is_in
    faultynet.Injectors.Link.inject_persistent_pattern faultynet.Injectors.Link.inject_nics
    faultynet.Injectors.Link.inject_everything faultynet.Injectors.Tc.make_nics_injection_command
    faultynet.Injectors.Link.execute random_runs wait_until_go
random_completes_example =
    random_completes "/sbin/tc" (λ n. first_links) random_links 1 2 2 refl refl refl refl
