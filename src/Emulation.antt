-- ===== src/Emulation.antt =====
-- mininet/net.py: the nodes of a `Mininet` object, their names and their default parameters.
-- What the constructor of a node's class does is left out; a number stands for the object.
pub mod Distinct
pub mod Hosts
pub mod Members
pub mod Pings
pub mod Waiting
pub mod Cables
pub mod Building
pub mod Lifecycle
use faultynet.Shared.{
  ℕ, zero, suc, ◌+◌, ◌%◌, ◌/◌, ◌==◌, ltb, String, Bool, true, false, not, Option, none, some, List,
  [], ◌∷◌, ◌++◌, any, cat, show_ℕ, Dict, lookup, insert, erase, Result, ok, err, zero_division,
  value_error, key_error, ◌>>=◌, if◌then◌else◌,
}
use Prim.Native.Nat.{bit_and}
use faultynet.Addresses.{ip_add, mac_colon_hex, last_in_subnet}

pub data Param : Type 0 where
  text : String → Param
  number : ℕ → Param
  flag : Bool → Param
  nothing : Param

pub record Member : Type 0 where
  pub id : ℕ
  pub name : String
  pub params : Dict Param

pub record Mininet : Type 0 where
  pub ip_base_num : ℕ
  pub prefix_len : ℕ
  pub next_ip : ℕ
  pub in_namespace : Bool
  pub auto_set_macs : Bool
  pub auto_pin_cpus : Bool
  pub num_cores : ℕ
  pub next_core : ℕ
  pub listen_port : Option ℕ
  pub hosts : List Member
  pub switches : List Member
  pub controllers : List Member
  pub name_to_node : Dict Member

-- `nextIP` of a new network
unfoldable pub first_ip : ℕ → ℕ → ℕ
first_ip prefix_len ip_base_num =
    let host_ip = bit_and (last_in_subnet prefix_len) ip_base_num in
    if ltb 0 host_ip then host_ip else 1

-- `'%s/%s' % (address, prefixLen)`
abbrev pub with_prefix : String → ℕ → String
with_prefix address prefix_len = cat (address ∷ "/" ∷ show_ℕ prefix_len ∷ [])

-- `getNextIp`
unfoldable pub get_next_ip : Mininet → Result (String × Mininet)
unfolding cat show_ℕ
get_next_ip net = ip_add net.next_ip net.prefix_len net.ip_base_num >>= λ address.
    ok (with_prefix address net.prefix_len, record net { next_ip = net.next_ip + 1 })

-- `defaults.update( params )`
unfoldable pub update : Dict Param → Dict Param → Dict Param
unfolding insert
update defaults [] = defaults
update defaults ((k, v) ∷ params) = update (insert k v defaults) params

abbrev when : Bool → Dict Param → Dict Param
when b d = if b then d else []

-- The defaults of a host
abbrev pub host_defaults : String → Mininet → Dict Param
host_defaults address net =
    ("ip", text (with_prefix address net.prefix_len))
    ∷ (when net.auto_set_macs (("mac", text (mac_colon_hex net.next_ip)) ∷ [])
        ++ when net.auto_pin_cpus (("cores", number net.next_core) ∷ []))

abbrev pub core_after : Mininet → Result ℕ
core_after net =
    if not net.auto_pin_cpus
    then ok net.next_core
    else if net.num_cores == 0
    then err zero_division
    else ok ((net.next_core + 1) % net.num_cores)

-- The host with its address, and the next number for an address and a core.
abbrev pub hosted : ℕ → String → Dict Param → Mininet → String → ℕ → Mininet
hosted id name params net address core =
    let host : Member = record {
      id = id;
      name = name;
      params = update (host_defaults address net) params;
    } in
    record net {
      next_core = core;
      next_ip = net.next_ip + 1;
      hosts = net.hosts ++ (host ∷ []);
      name_to_node = insert name host net.name_to_node;
    }

-- `addHost`
unfoldable pub add_host : ℕ → String → Dict Param → Mininet → Result Mininet
unfolding update insert mac_colon_hex
add_host id name params net = ip_add net.next_ip net.prefix_len net.ip_base_num >>= λ address.
    core_after net >>= λ core. ok (hosted id name params net address core)

-- `nodes.remove( node )`, without a ValueError
unfoldable pub remove_member : ℕ → List Member → List Member
remove_member id [] = []
remove_member id (m ∷ ms) = let rest = m ∷ remove_member id ms in if m.id == id then ms else rest

abbrev pub has_member : ℕ → List Member → Bool
has_member id = any (λ m. m.id == id)

-- What `removeHost` does with what it finds under the name.
abbrev pub drop_host : String → Mininet → Option Member → Bool × Mininet
drop_host name net none = (false, net)
drop_host name net (some h) = (
  true,
  record net { hosts = remove_member h.id net.hosts; name_to_node = erase name net.name_to_node },
)

-- `removeHost`, of a name; the links of the host are kept.
unfoldable pub remove_host : String → Mininet → Bool × Mininet
unfolding lookup erase remove_member
remove_host name net = drop_host name net (lookup name net.name_to_node)

-- `nodes.remove( node )` and `del self.nameToNode[ node.name ]`
abbrev pub forget_name : String → Mininet → Result Mininet
forget_name name net = elim (lookup name net.name_to_node) [
  | none ↦ err key_error
  | some m ↦ ok (record net { name_to_node = erase name net.name_to_node })
]

-- `delNode` without a list: the first list that has the node, or an empty one
unfoldable pub del_node : Member → Mininet → Result Mininet
unfolding remove_member lookup erase
del_node m net =
    if has_member m.id net.hosts
    then forget_name m.name (record net { hosts = remove_member m.id net.hosts })
    else if has_member m.id net.switches
    then forget_name m.name (record net { switches = remove_member m.id net.switches })
    else if has_member m.id net.controllers
    then forget_name m.name (record net { controllers = remove_member m.id net.controllers })
    else err value_error

abbrev port_param : Option ℕ → Param
port_param none = nothing
port_param (some port) = number port

-- `if not self.inNamespace and self.listenPort: self.listenPort += 1`
abbrev pub port_after : Bool → Option ℕ → Option ℕ
port_after in_namespace none = none
port_after in_namespace (some zero) = some zero
port_after in_namespace (some (suc port)) =
    if in_namespace then some (suc port) else some (suc (suc port))

-- `addSwitch`
unfoldable pub add_switch : ℕ → String → Dict Param → Mininet → Mininet
unfolding update insert
add_switch id name params net =
    let defaults =
      ("listenPort", port_param net.listen_port) ∷ ("inNamespace", flag net.in_namespace) ∷ [] in
    let switch : Member = record { id = id; name = name; params = update defaults params } in
    record net {
      listen_port = port_after net.in_namespace net.listen_port;
      switches = net.switches ++ (switch ∷ []);
      name_to_node = insert name switch net.name_to_node;
    }

-- `addController`, for what the constructor returns, which may be nothing
unfoldable pub add_controller : String → Option Member → Mininet → Mininet
unfolding insert
add_controller name none net = net
add_controller name (some c) net = record net {
  controllers = net.controllers ++ (c ∷ []);
  name_to_node = insert name c net.name_to_node;
}
