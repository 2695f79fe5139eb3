-- ===== src/Tests/Configs.antt =====
-- The reading of configurations at concrete inputs.
use faultynet.Shared.{
  ◌<>◌, ◌≡◌, refl, false, none, some, List, [], ◌∷◌, ok, err, Result, show_ℕ, pos, All, map, Option,
}
use faultynet.Values.{null, int}
use faultynet.Network.{Net}
use faultynet.Injectors.Multi.{Json}
use faultynet.Injectors.Node.{Host}
use faultynet.Controllers.Patterns.{implicit_link, explicit_link, is_string_in_arrow_pattern}
use faultynet.Controllers.Patterns.Printing.{arrow, colon, explicit_link-print}
use faultynet.Controllers.Identifiers.{Target, search_links, get_mininet_agnostic_identifiers}
use faultynet.Controllers.Identifiers.Search.{pick, candidates, search_links-eq-pick}
use faultynet.Controllers.ConfigFile.{
  FaultDict, Injector, Kind, link_fault, node_fault, config_by_file,
}
use faultynet.Controllers.ConfigFile.Kinds.{IsTyped}
use faultynet.Controllers.ConfigFile.Made.{made_of, expected, made_of-config_by_file}
use faultynet.Controllers.ConfigFile.Defaults.{FailsAtOnce, injectors_fail}
use faultynet.Tests.Samples.{thousandths, word, s1, h1, cables}

explicit_link-print_example :
    (explicit_link word ("s1" <> arrow ("h1" <> colon "s1-e")) ≡ some ("s1", "h1", "s1-e"))
    × (implicit_link word ("s1" <> arrow ("h1" <> colon "s1-e")) ≡ none)
    × (implicit_link word ("s1" <> arrow "h1") ≡ some ("s1", "h1"))
explicit_link-print_example =
    explicit_link-print word refl refl "s1" "h1" "s1-e" (refl, (refl, tt)) (refl, (refl, tt))
      (refl, (refl, (refl, (refl, tt))))

search_links-eq-pick_example :
    search_links "s1" "h1" none cables none ≡ pick none (candidates "s1" "h1" cables)
search_links-eq-pick_example = search_links-eq-pick "s1" "h1" none cables

abbrev net : Net
net = record { hosts = h1 ∷ []; switches = s1 ∷ []; controllers = []; links = cables }

-- The interface of a link that is named as Mininet names it is read as an identifier, and is not
-- recognised where a redirection names it.
read_explicit : get_mininet_agnostic_identifiers word net (some "s1->h1:s1-eth1") ≡ record {
  process_group_id = some 42;
  interface_name = some "s1-eth1";
  identifier_string = some "s1->h1:s1-eth1";
}
unfolding get_mininet_agnostic_identifiers
read_explicit = refl

not_an_arrow : is_string_in_arrow_pattern word "s1->h1:s1-eth1" ≡ false
unfolding is_string_in_arrow_pattern
not_an_arrow = refl

abbrev no_json : Json
no_json = record { keys = λ s. ok []; reset_text = λ names. "{}" }

abbrev host : Host thousandths
host = record { format = λ s n. ok s; cgroup_size = some 1000 }

abbrev target : Target
target = record {
  process_group_id = some 42;
  interface_name = some "s1-eth1";
  identifier_string = some "s1->h1";
}

-- The first example of the README: neither its times nor its tag are given.
abbrev hello : FaultDict thousandths Target
hello = record {
  fault_type = some "link_fault:loss";
  type_args = none;
  tag = none;
  pattern = some "random";
  pattern_args = some (int (pos 50) ∷ []);
  pre_injection_time = null;
  injection_time = null;
  post_injection_time = null;
  identifiers = some (target ∷ target ∷ []);
  target_traffic = none;
  tc_config = none;
}

abbrev or_empty : Result (List (Injector thousandths)) → List (Injector thousandths)
or_empty (ok is) = is
or_empty (err e) = []

injectors : List (Injector thousandths)
unfolding config_by_file
injectors = or_empty (config_by_file word no_json show_ℕ 0 (hello ∷ []))

-- A fault of a node, with its own tag.
abbrev stress : FaultDict thousandths Target
stress = record hello {
  fault_type = some "node_fault:stress";
  tag = some "cpu";
  pattern = none;
  identifiers = some (target ∷ []);
}

-- Three faults, of which the last has no type.
abbrev kinds : List (Option Kind × FaultDict thousandths Target)
kinds =
    (some (link_fault "loss"), hello)
    ∷ (some (node_fault "stress"), stress)
    ∷ (none, record hello { fault_type = none })
    ∷ []

kinds-IsTyped : All (λ (k, d). IsTyped word k d.fault_type) kinds
kinds-IsTyped = (
  (refl, (refl, (refl, (refl, (refl, tt))))),
  ((refl, (refl, (refl, (refl, (refl, (refl, (refl, tt))))))), (tt, tt)),
)

mixed : List (Injector thousandths)
unfolding config_by_file
mixed = or_empty (config_by_file word no_json show_ℕ 0 (map (λ (k, d). d) kinds))

made_of-config_by_file_example : map made_of mixed ≡ expected show_ℕ 0 kinds
unfolding mixed
made_of-config_by_file_example =
    made_of-config_by_file word no_json show_ℕ 0 kinds mixed kinds-IsTyped refl

injectors_fail_example : All (FailsAtOnce "/bin" (λ pid. host)) injectors
unfolding injectors show_ℕ
injectors_fail_example =
    injectors_fail "/bin" (λ pid. host) word no_json hello "0" injectors refl refl
