-- ===== src/Controllers/ConfigFile.antt =====
-- ConfigFileFaultController.py: the injectors for the faults of a configuration, and the starter's
-- preparation of the configuration.
pub mod Gathering
pub mod Kinds
pub mod Made
pub mod Defaults
use Prim.Native.Char.{Char}
use faultynet.Shared.{
  ℕ, suc, String, Bool, false, Option, none, some, List, [], ◌∷◌, ◌++◌, map, Result, ok, err,
  type_error, key_error, index_error, ◌>>=◌, traverse, str_eq, cat, if◌then◌else◌,
}
use faultynet.Values.{Floats, Value, null, text, need_text}
use faultynet.Network.{Net}
use faultynet.Injectors.Link.{LinkInjector}
use faultynet.Injectors.Node.{NodeInjector}
use faultynet.Injectors.Multi.{MultiInjector, Json, build_start_command}
use faultynet.Controllers.Patterns.{fault_of_kind, is_string_in_arrow_pattern, after_prefix, at_end}
use faultynet.Controllers.Identifiers.{
  Target, get_mininet_agnostic_identifiers, get_node_and_interface_name,
}
use faultynet.Controllers.Targets.{Traffic, Targets, get_target_arguments}

-- The object of one fault; `I` is what stands for an identifier. A time that is missing is null.
pub record FaultDict (F : Floats) (I : Type 0) : Type 0 where
  pub fault_type : Option String
  pub type_args : Option (List (Value F))
  pub tag : Option String
  pub pattern : Option String
  pub pattern_args : Option (List (Value F))
  pub pre_injection_time : Value F
  pub injection_time : Value F
  pub post_injection_time : Value F
  pub identifiers : Option (List I)
  pub target_traffic : Option (Option (Traffic F))
  pub tc_config : Option String

pub data Injector (F : Floats) : Type 0 where
  link : LinkInjector F → Injector F
  node : NodeInjector F → Injector F
  multi : MultiInjector F → Injector F

abbrev pub or_default : Option String → String → String
or_default none d = d
or_default (some s) d = s

-- `for x in xs` of a list that may be missing
abbrev pub items_of {ℓ} : {A : Type ℓ} → Option (List A) → Result (List A)
items_of none = err type_error
items_of (some xs) = ok xs

-- `tag + "@" + node_string_reference`
unfoldable pub actual_tag : String → Target → Result String
unfolding cat
actual_tag tag target = elim target.identifier_string [
  | none ↦ err type_error
  | some s ↦ ok (cat (tag ∷ "@" ∷ s ∷ []))
]

module _ {F : Floats} (json : Json) (d : FaultDict F Target) (tag : String)
    (targets : Targets F) where
  unfoldable pub link_injector : String → Target → Result (Injector F)
  unfolding actual_tag
  link_injector fault_type target = actual_tag tag target >>= λ full. ok (
      link (record {
        target_interface = target.interface_name;
        namespace_pid = target.process_group_id;
        tag = full;
        fault_target_protocol = targets.protocol;
        fault_target_dst_ports = targets.dst_port;
        fault_target_src_ports = targets.src_port;
        fault_type = fault_type;
        fault_pattern = or_default d.pattern "persistent";
        fault_pattern_args = d.pattern_args;
        fault_args = d.type_args;
        pre_injection_time = d.pre_injection_time;
        injection_time = d.injection_time;
        post_injection_time = d.post_injection_time;
      }))

  unfoldable pub multi_injector : Target → Result (Injector F)
  unfolding actual_tag build_start_command
  multi_injector target = actual_tag tag target >>= λ full.
      build_start_command json d.tc_config >>= λ commands. ok (
        multi (record {
          target_process_pid = target.process_group_id;
          tag = full;
          fault_pattern = or_default d.pattern "persistent";
          fault_pattern_args = d.pattern_args;
          pre_injection_time = d.pre_injection_time;
          injection_time = d.injection_time;
          post_injection_time = d.post_injection_time;
          inject_command = commands.0;
          eject_command = commands.1;
        }))

  unfoldable pub node_injector : String → Target → Result (Injector F)
  unfolding actual_tag
  node_injector fault_type target = actual_tag tag target >>= λ full. ok (
      node (record {
        target_process_pid = target.process_group_id;
        tag = full;
        fault_type = fault_type;
        pre_injection_time = d.pre_injection_time;
        injection_time = d.injection_time;
        post_injection_time = d.post_injection_time;
        fault_args = d.type_args;
        fault_pattern = or_default d.pattern "persistent";
        fault_pattern_args = d.pattern_args;
      }))

-- The injector that a type asks for, with the words behind the colon.
pub data Kind : Type 0 where
  link_fault node_fault : String → Kind
  multi_fault : Kind

abbrev is_redirect : Option String → Bool
is_redirect none = false
is_redirect (some t) = str_eq t "link_fault:redirect"

module _ (is_word : Char → Bool) where
  abbrev node_kind : Option String → Option Kind
  node_kind none = none
  node_kind (some t) = some (node_fault t)

  abbrev multi_kind : Option String → Option Kind → Option Kind
  multi_kind none others = others
  multi_kind (some rest) others = if at_end rest then some multi_fault else others

  abbrev link_kind : Option String → Option Kind → Option Kind
  link_kind none others = others
  link_kind (some t) others = some (link_fault t)

  -- The three expressions in their order.
  unfoldable pub kind_of : String → Option Kind
  unfolding fault_of_kind after_prefix at_end
  kind_of s = link_kind (fault_of_kind is_word "link_fault:" s) (
      multi_kind (after_prefix "multi_fault" s) (node_kind (fault_of_kind is_word "node_fault:" s)))

  module _ {F : Floats} (json : Json) where
    unfoldable pub injectors_of_kind :
        FaultDict F Target → String → Targets F → Option Kind → Result (List (Injector F))
    unfolding link_injector node_injector multi_injector
    injectors_of_kind d tag targets none = ok []
    injectors_of_kind d tag targets (some (link_fault t)) =
        items_of d.identifiers >>= traverse (link_injector json d tag targets t)
    injectors_of_kind d tag targets (some (node_fault t)) =
        items_of d.identifiers >>= traverse (node_injector json d tag targets t)
    injectors_of_kind d tag targets (some multi_fault) =
        items_of d.identifiers >>= traverse (multi_injector json d tag targets)

    -- A fault without a type, or of an unknown one, is passed over.
    abbrev pub injectors_of_type :
        FaultDict F Target → String → Targets F → Option String → Result (List (Injector F))
    injectors_of_type d tag targets none = ok []
    injectors_of_type d tag targets (some t) = injectors_of_kind d tag targets (kind_of t)

    -- One round of the loop of `_configByFile`.
    unfoldable pub injectors_of : FaultDict F Target → String → Result (List (Injector F))
    unfolding get_target_arguments kind_of injectors_of_kind
    injectors_of d uuid = get_target_arguments d.target_traffic >>= λ targets.
        injectors_of_type d (or_default d.tag uuid) targets d.fault_type

    -- `_configByFile`; `uuid` gives the random tag of the fault of a number.
    unfoldable pub config_by_file :
        (ℕ → String) → ℕ → List (FaultDict F Target) → Result (List (Injector F))
    unfolding injectors_of
    config_by_file uuid i [] = ok []
    config_by_file uuid i (d ∷ faults) =
        let rest = config_by_file uuid (suc i) faults in
        injectors_of d (uuid i) >>= λ first. rest >>= λ others. ok (first ++ others)

  module _ {F : Floats} (net : Net) where
    -- The interface that a `redirect` fault names.
    unfoldable pub redirect_interface : Value F → Result (Value F)
    unfolding is_string_in_arrow_pattern get_node_and_interface_name need_text
    redirect_interface v = need_text v >>= λ s.
        if is_string_in_arrow_pattern is_word s
        then ok (elim (get_node_and_interface_name is_word net (some s)).0 [
          | none ↦ null
          | some i ↦ text i
        ])
        else ok (text s)

    abbrev redirect_args : String → Option (List (Value F)) → Result (Option (List (Value F)))
    redirect_args key none = err type_error
    redirect_args key (some []) = err index_error
    redirect_args key (some (v ∷ vs)) = redirect_interface v >>= λ i.
        if str_eq key "link_fault" then ok (some (i ∷ vs)) else err key_error

    -- One round of the loop of `make_controller_config`, for the object under the key `key`. The
    -- list of targets is passed as it is: `literal_eval` reads back what `repr` has written.
    unfoldable pub prepare_fault :
        String → FaultDict F (Option String) → Result (FaultDict F Target)
    unfolding get_mininet_agnostic_identifiers redirect_interface
    prepare_fault key d = items_of d.identifiers >>= λ names.
        let targets = map (get_mininet_agnostic_identifiers is_word net) names in
        let redirected = redirect_args key d.type_args in
        (if is_redirect d.fault_type then redirected else ok d.type_args) >>= λ args. ok (record {
          fault_type = d.fault_type;
          type_args = args;
          tag = d.tag;
          pattern = d.pattern;
          pattern_args = d.pattern_args;
          pre_injection_time = d.pre_injection_time;
          injection_time = d.injection_time;
          post_injection_time = d.post_injection_time;
          identifiers = some targets;
          target_traffic = d.target_traffic;
          tc_config = d.tc_config;
        })

    -- The faults of `make_controller_config`, each with the key that it stands under.
    unfoldable pub prepare_faults :
        List (String × FaultDict F (Option String)) → Result (List (FaultDict F Target))
    unfolding prepare_fault
    prepare_faults = traverse (λ entry. prepare_fault entry.0 entry.1)
