-- ===== src/Controllers/LinkPairs.antt =====
-- What RandomLinkFaultController.py and MostUsedLinkFaultController.py share: the links that the
-- starter passes, the reading of the configuration, and the two injectors of a link.
pub mod Blacklist
use Prim.Native.Char.{Char}
use faultynet.Shared.{
  ℕ, String, Bool, ◌&&◌, ◌||◌, ◌==◌, Option, none, some, List, [], ◌∷◌, ℤ, pos, Result, ok, err,
  type_error, attribute_error, ◌>>=◌, any, str_eq, cat, if◌then◌else◌,
}
use faultynet.Values.{Floats, Value, int, to_int}
use faultynet.Network.{Intf, Link}
use faultynet.Injectors.Filtered.{absent}
use faultynet.Injectors.Link.{LinkInjector}
use faultynet.Controllers.Patterns.{fault_of_kind}
use faultynet.Controllers.Targets.{Traffic, get_target_arguments}

-- `(pid, interface name, node name)`
pub record End : Type 0 where
  pub pid : ℕ
  pub interface_name : String
  pub node_name : String

abbrev pub end_of : Intf → End
end_of i = record { pid = i.node.pid; interface_name = i.name; node_name = i.node.name }

abbrev pub same_end : End → End → Bool
same_end a b =
    a.pid == b.pid && str_eq a.interface_name b.interface_name && str_eq a.node_name b.node_name

-- The set of two ends, as the list that iterates over it; `comes_first` says in which order.
abbrev pub link_element : (End → End → Bool) → Link → List End
link_element comes_first link =
    let a = end_of link.intf1 in
    let b = end_of link.intf2 in
    if same_end a b then a ∷ [] else if comes_first a b then a ∷ b ∷ [] else b ∷ a ∷ []

unfoldable pub is_blacklisted : List String → Link → Bool
is_blacklisted blacklist link =
    any (str_eq link.intf1.node.name) blacklist || any (str_eq link.intf2.node.name) blacklist

-- The loop of `make_controller_config` over the links.
unfoldable pub links_list : (End → End → Bool) → List String → List Link → List (List End)
unfolding is_blacklisted
links_list comes_first blacklist [] = []
links_list comes_first blacklist (link ∷ links) =
    let rest = links_list comes_first blacklist links in
    if is_blacklisted blacklist link then rest else link_element comes_first link ∷ rest

-- The configuration that the controller reads; `none` where a key is missing.
pub record LinkConfig (F : Floats) : Type 0 where
  pub start_links : Option (Value F)
  pub end_links : Option (Value F)
  pub links : List (List End)
  pub mode : Option String
  pub fault_type : Option String
  pub type_args : Option (List (Value F))
  pub pattern : String
  pub pattern_args : Option (List (Value F))
  pub injection_time : Value F
  pub target_traffic : Option (Option (Traffic F))
  pub src_port : Option (Value F)
  pub dst_port : Option (Value F)

-- The attributes that decide on a run's injectors. An unknown fault type leaves its attribute unset.
pub record LinkFault (F : Floats) : Type 0 where
  pub fault_type : Option String
  pub fault_args : Option (List (Value F))
  pub fault_pattern : String
  pub fault_pattern_args : Option (List (Value F))
  pub injection_time : ℤ

abbrev match_type : (Char → Bool) → Option String → Result (Option String)
match_type is_word none = err type_error
match_type is_word (some s) = ok (fault_of_kind is_word "link_fault:" s)

-- `f"{node}:{interface}->{node}:{interface}"`
unfoldable pub link_tag : End → End → String
unfolding cat
link_tag a b =
    cat (a.node_name ∷ ":" ∷ a.interface_name ∷ "->" ∷ b.node_name ∷ ":" ∷ b.interface_name ∷ [])

abbrev need_type : Option String → Result String
need_type none = err attribute_error
need_type (some t) = ok t

module _ {F : Floats} where
  -- `int(config.get(key, default))`
  abbrev pub int_or : Option (Value F) → ℤ → Result ℤ
  int_or none d = ok d
  int_or (some v) d = to_int v

  -- The part of `_configByFile` behind the mode. Protocol and ports are read, and used nowhere.
  unfoldable pub link_fault_of : (Char → Bool) → LinkConfig F → Result (LinkFault F)
  unfolding get_target_arguments to_int
  link_fault_of is_word config = match_type is_word config.fault_type >>= λ fault_type.
      to_int config.injection_time >>= λ time.
      get_target_arguments config.target_traffic >>= λ targets.
      int_or config.src_port (pos 0) >>= λ src. int_or config.dst_port (pos 0) >>= λ dst.
      ok (record {
        fault_type = fault_type;
        fault_args = config.type_args;
        fault_pattern = config.pattern;
        fault_pattern_args = config.pattern_args;
        injection_time = time;
      })

  -- The injector on the first end.
  unfoldable pub injector_at : LinkFault F → String → End → End → LinkInjector F
  unfolding link_tag
  injector_at self fault_type a b = record {
    target_interface = some a.interface_name;
    namespace_pid = some a.pid;
    tag = link_tag a b;
    fault_target_protocol = "any";
    fault_target_dst_ports = absent;
    fault_target_src_ports = absent;
    fault_type = fault_type;
    fault_pattern = self.fault_pattern;
    fault_pattern_args = self.fault_pattern_args;
    fault_args = self.fault_args;
    pre_injection_time = int (pos 0);
    injection_time = int self.injection_time;
    post_injection_time = int (pos 0);
  }

  -- `_get_injectors_for_link` for a link's two ends
  unfoldable pub get_injectors_for_ends : LinkFault F → End → End → Result (List (LinkInjector F))
  unfolding injector_at
  get_injectors_for_ends self a b =
      need_type self.fault_type >>= λ t. ok (injector_at self t a b ∷ injector_at self t b a ∷ [])
