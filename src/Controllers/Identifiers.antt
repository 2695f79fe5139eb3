-- ===== src/Controllers/Identifiers.antt =====
-- `BaseFaultControllerStarter`: the interface and the node that an identifier stands for.
pub mod Search
use Prim.Native.Char.{Char}
use faultynet.Shared.{
  ℕ, String, Bool, ◌&&◌, Option, none, some, List, [], ◌∷◌, ◌++◌, str_eq, if◌then◌else◌,
}
use faultynet.Network.{Node, Intf, Link, Net}
use faultynet.Controllers.Patterns.{implicit_link, explicit_link}

-- The node names and the interface's name that an identifier gives.
pub record Parts : Type 0 where
  pub nodename_a : String
  pub nodename_b : Option String
  pub explicit_name : Option String

unfoldable pub parts_of : (Char → Bool) → String → Parts
unfolding implicit_link explicit_link
parts_of is_word s = elim (implicit_link is_word s) [
  | some (a, b) ↦ record { nodename_a = a; nodename_b = some b; explicit_name = none }
  | none ↦ elim (explicit_link is_word s) [
    | some (a, b, c) ↦ record { nodename_a = a; nodename_b = some b; explicit_name = some c }
    | none ↦ record { nodename_a = s; nodename_b = none; explicit_name = none }
  ]
]

unfoldable pub find_node : String → List Node → Option Node
find_node name [] = none
find_node name (node ∷ nodes) = if str_eq node.name name then some node else find_node name nodes

-- `if explicit_name:`: the empty text counts as no name.
abbrev pub given : Option String → Option String
given none = none
given (some String.[]) = none
given (some (String.◌∷◌ c s)) = some (String.◌∷◌ c s)

-- The interface of the link on the first node, towards the second.
unfoldable pub endpoint : String → String → Link → Option Intf
endpoint a b link =
    if str_eq link.intf1.node.name a && str_eq link.intf2.node.name b
    then some link.intf1
    else if str_eq link.intf1.node.name b && str_eq link.intf2.node.name a
    then some link.intf2
    else none

-- The loop over the links. `found` is the interface of the last link that fitted; a name that was
-- asked for ends the loop, and one that differs is forgotten.
unfoldable pub search_links :
    String → String → Option String → List Link → Option Intf → Option Intf
unfolding endpoint
search_links a b wanted [] found = found
search_links a b wanted (link ∷ links) found = elim (endpoint a b link) [
  | none ↦ search_links a b wanted links found
  | some intf ↦ elim wanted [
    | none ↦ search_links a b wanted links (some intf)
    | some name ↦
        let rest = search_links a b wanted links none in
        if str_eq name intf.name then some intf else rest
  ]
]

abbrev pub interface_and_node : Option Intf → Option String × Option Node
interface_and_node none = (none, none)
interface_and_node (some intf) = (some intf.name, some intf.node)

-- `_get_node_and_interface_name_from_identifier_string`
unfoldable pub get_node_and_interface_name :
    (Char → Bool) → Net → Option String → Option String × Option Node
unfolding parts_of find_node search_links
get_node_and_interface_name is_word net none = (none, none)
get_node_and_interface_name is_word net (some s) =
    let parts = parts_of is_word s in
    elim parts.nodename_b [
      | none ↦ elim (find_node parts.nodename_a (net.hosts ++ net.switches ++ net.controllers)) [
        | none ↦ (none, none)
        | some node ↦ (none, some node)
      ]
      | some b ↦
          interface_and_node
            (search_links parts.nodename_a b (given parts.explicit_name) net.links none)
    ]

-- What is passed to the controller's process in place of an identifier.
pub record Target : Type 0 where
  pub process_group_id : Option ℕ
  pub interface_name : Option String
  pub identifier_string : Option String

-- `_get_passable_identifiers_from_node_and_interface_name`
unfoldable pub get_passable_identifiers : Option String → Option Node → Option ℕ × Option String
get_passable_identifiers interface none = (none, none)
get_passable_identifiers interface (some node) = (some node.pid, interface)

-- `_get_mininet_agnostic_identifiers_from_identifier_string`
unfoldable pub get_mininet_agnostic_identifiers : (Char → Bool) → Net → Option String → Target
unfolding get_node_and_interface_name get_passable_identifiers
get_mininet_agnostic_identifiers is_word net s =
    let (interface, node) = get_node_and_interface_name is_word net s in
    let (pid, name) = get_passable_identifiers interface node in
    record { process_group_id = pid; interface_name = name; identifier_string = s }
