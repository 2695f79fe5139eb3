-- ===== src/Interfaces.antt =====
-- mininet/node.py: the tables in which a node keeps its interfaces, and what mininet/link.py does
-- with them when an interface or a link is made, renamed or deleted. Interfaces are objects; a number
-- stands for the object, and `name_of` holds the attribute `name` of each.
pub mod Order
pub mod Spec
pub mod Attached
pub mod Refined
pub mod Links
pub mod Loops
use faultynet.Shared.{
  ℕ, ◌+◌, ◌==◌, leb, ltb, String, Bool, not, ◌||◌, Option, none, some, List, [], ◌∷◌, cat, show_ℕ,
  is_in, Dict, lookup, insert, erase, Numbered, at, put, remove, Result, ok, err, key_error, ◌>>=◌,
  if◌then◌else◌,
}

pub record Tables : Type 0 where
  pub intfs : Numbered ℕ
  pub ports : Numbered ℕ
  pub name_to_intf : Dict ℕ
  pub name_of : ℕ → String

-- `max(self.ports.values())`
unfoldable pub largest : Numbered ℕ → ℕ
largest [] = 0
largest ((intf, port) ∷ d) = let rest = largest d in if ltb rest port then port else rest

-- `newPort`
unfoldable pub new_port : ℕ → Numbered ℕ → ℕ
unfolding largest
new_port port_base [] = port_base
new_port port_base ((intf, port) ∷ d) = largest ((intf, port) ∷ d) + 1

abbrev pub port_or : Option ℕ → ℕ → ℕ
port_or none new = new
port_or (some port) new = port

-- `addIntf`, without the move into the namespace
unfoldable pub add_intf : ℕ → ℕ → Option ℕ → Tables → Tables
unfolding new_port put insert
add_intf port_base intf port t =
    let port = port_or port (new_port port_base t.ports) in
    record t {
      intfs = put port intf t.intfs;
      ports = put intf port t.ports;
      name_to_intf = insert (t.name_of intf) intf t.name_to_intf;
    }

abbrev pub set_name : ℕ → String → (ℕ → String) → ℕ → String
set_name intf name name_of other = if intf == other then name else name_of other

-- `Intf.__init__` for an interface with a node
unfoldable pub new_intf : ℕ → ℕ → String → Option ℕ → Tables → Tables
unfolding add_intf
new_intf port_base intf name port t =
    add_intf port_base intf port (record t { name_of = set_name intf name t.name_of })

-- `del d[k]`, with the KeyError
abbrev pub del_number : {V : Type 0} → ℕ → Numbered V → Result (Numbered V)
del_number k d = elim (at k d) [ none ↦ err key_error | some _ ↦ ok (remove k d) ]

abbrev pub del_name : {V : Type 0} → String → Dict V → Result (Dict V)
del_name k d = elim (lookup k d) [ none ↦ err key_error | some _ ↦ ok (erase k d) ]

-- `delIntf` of an interface whose port is known; what a KeyError leaves behind is not kept.
abbrev pub del_from : ℕ → ℕ → Tables → Result Tables
del_from intf port t = del_number port t.intfs >>= λ intfs. del_number intf t.ports >>= λ ports.
    del_name (t.name_of intf) t.name_to_intf >>= λ names.
    ok (record t { intfs = intfs; ports = ports; name_to_intf = names })

-- `delIntf`
unfoldable pub del_intf : ℕ → Tables → Result Tables
unfolding at remove lookup erase
del_intf intf t = elim (at intf t.ports) [ none ↦ ok t | some port ↦ del_from intf port t ]

-- `nameToIntf[newname] = nameToIntf.pop(name)`
abbrev moved_name : String → String → Option ℕ → Dict ℕ → Dict ℕ
moved_name name newname none d = d
moved_name name newname (some intf) d = insert newname intf (erase name d)

-- `Intf.rename`
unfoldable pub rename : ℕ → String → Tables → Tables
unfolding lookup insert erase
rename intf newname t = record t {
  name_to_intf =
      moved_name (t.name_of intf) newname (lookup (t.name_of intf) t.name_to_intf) t.name_to_intf;
  name_of = set_name intf newname t.name_of;
}

-- `min(ports)`, of which the first is given
unfoldable pub least : {V : Type 0} → ℕ → Numbered V → ℕ
least k [] = k
least k ((j, v) ∷ d) = let rest = least j d in if ltb rest k then rest else k

-- `self.intfs[min(ports)]`, or None
abbrev pub lowest : Numbered ℕ → Option ℕ
lowest [] = none
lowest ((k, v) ∷ d) = at (least k d) ((k, v) ∷ d)

-- `defaultIntf`
unfoldable pub default_intf : Tables → Option ℕ
unfolding least at
default_intf t = lowest t.intfs

unfoldable pub insert_sorted : ℕ → List ℕ → List ℕ
insert_sorted k [] = k ∷ []
insert_sorted k (j ∷ ks) = let rest = insert_sorted k ks in if leb k j then k ∷ j ∷ ks else j ∷ rest

-- `sorted(self.intfs.keys())`
unfoldable pub sorted_keys : {V : Type 0} → Numbered V → List ℕ
unfolding insert_sorted
sorted_keys [] = []
sorted_keys ((k, v) ∷ d) = insert_sorted k (sorted_keys d)

-- `[self.intfs[p] for p in ports]`
unfoldable pub intfs_at : Numbered ℕ → List ℕ → List (Option ℕ)
unfolding at
intfs_at d [] = []
intfs_at d (p ∷ ports) = at p d ∷ intfs_at d ports

-- `intfList`: no port of the list is missing.
unfoldable pub intf_list : Tables → List (Option ℕ)
unfolding sorted_keys intfs_at
intf_list t = intfs_at t.intfs (sorted_keys t.intfs)

-- The argument of `intf`: None or the empty text, a name, an interface.
pub data IntfArg : Type 0 where
  falsy : IntfArg
  named : String → IntfArg
  object : ℕ → IntfArg

-- `intf`
unfoldable pub find_intf : IntfArg → Tables → Result (Option ℕ)
unfolding default_intf lookup
find_intf falsy t = ok (default_intf t)
find_intf (named name) t = elim (lookup name t.name_to_intf) [
  | none ↦ err key_error
  | some i ↦ ok (some i)
]
find_intf (object i) t = ok (some i)

-- `deleteIntfs`, of the interfaces that are left; `Intf.delete` calls `delIntf`.
unfoldable pub delete_each : String → Bool → List (ℕ × ℕ) → Tables → Result Tables
unfolding del_intf is_in
delete_each name check_name [] t = ok t
delete_each name check_name ((port, intf) ∷ rest) t =
    let deleted = del_intf intf t >>= λ t1. delete_each name check_name rest t1 in
    let kept = delete_each name check_name rest t in
    if is_in name (t.name_of intf) || not check_name then deleted else kept

unfoldable pub delete_intfs : String → Bool → Tables → Result Tables
unfolding delete_each
delete_intfs name check_name t = delete_each name check_name t.intfs t

-- `Link.intfName`
unfoldable pub intf_name : String → ℕ → String
unfolding cat show_ℕ
intf_name node n = cat (node ∷ "-eth" ∷ show_ℕ n ∷ [])

-- `if not intfName1: intfName1 = self.intfName( node1, port )`
abbrev pub name_or : Option String → String → ℕ → String
name_or none node port = intf_name node port
name_or (some name) node port = name

-- What a link reads of a node, and which node it is.
pub record End : Type 0 where
  pub node : ℕ
  pub node_name : String
  pub port_base : ℕ

-- The tables of all nodes.
abbrev pub Store : Type 0
Store = ℕ → Tables

abbrev pub set_tables : ℕ → Tables → Store → Store
set_tables node t store other = if node == other then t else store other

-- `Link.__init__`: both ports are asked for before an interface is made.
unfoldable pub make_link :
    End → End → Option ℕ → Option ℕ → Option String → Option String → ℕ → ℕ → Store → Store
unfolding new_port new_intf intf_name
make_link end1 end2 port1 port2 name1 name2 intf1 intf2 store =
    let p1 = port_or port1 (new_port end1.port_base (store end1.node).ports) in
    let p2 = port_or port2 (new_port end2.port_base (store end2.node).ports) in
    let t1 =
      new_intf end1.port_base intf1 (name_or name1 end1.node_name p1) (some p1) (store end1.node) in
    let store1 = set_tables end1.node t1 store in
    let t2 =
      new_intf end2.port_base intf2 (name_or name2 end2.node_name p2) (some p2)
        (store1 end2.node) in
    set_tables end2.node t2 store1
