-- ===== src/Emulation/Building/Named.antt =====
-- The names of the nodes while `buildFromTopo` (mininet/net.py) makes them.

use faultynet.Shared.{
  ℕ, ◌+◌, ◌<◌, ◌≡◌, refl, ap, String, eq_iff, none, some, List, [], ◌∷◌, ◌++◌, map, Dict, lookup,
  insert, lookup-insert, arith, cat, show_ℕ,
}
use faultynet.Emulation.{Mininet, Member}
use faultynet.Emulation.Building.{Default, instance_of, made, add_defaults, with_controllers, Site}

-- A name has a node.
abbrev pub IsNamed : Mininet → String → Type 0
IsNamed net n = lookup n net.name_to_node ≡ none → ⊥

-- The node under each name has this name.
abbrev pub AgreesOnNames : Mininet → Type 0
AgreesOnNames net = (n : String) (m : Member) → lookup n net.name_to_node ≡ some m → m.name ≡ n

abbrev pub names : List Member → List String
names = map (λ m. m.name)

pub names-snoc :
    (ms : List Member) (m : Member) (rest : List String)
    → names (ms ++ (m ∷ [])) ++ rest ≡ names ms ++ (m.name ∷ rest)
names-snoc [] m rest = refl
names-snoc (x ∷ ms) m rest = ap (λ l. x.name ∷ l) (names-snoc ms m rest)

pub insert-IsNamed :
    (k n : String) (m : Member) (d : Dict Member)
    → (lookup n d ≡ none → ⊥)
    → lookup n (insert k m d) ≡ none
    → ⊥
insert-IsNamed k n m d h e = ground (arith, lookup-insert k n m d, h, e)

pub insert-IsNamed_self :
    (k : String) (m : Member) (d : Dict Member) → lookup k (insert k m d) ≡ none → ⊥
insert-IsNamed_self k m d e = ground (arith, lookup-insert k k m d, eq_iff k k, e)

-- Every name has an object of its own, whose number is used up.
pub record HasOwnIds (w : Site) : Type 0 where
  pub below : (n : String) (m : Member) → lookup n w.net.name_to_node ≡ some m → m.id < w.next
  pub one_name :
      (n j : String) (m x : Member)
      → lookup n w.net.name_to_node ≡ some m
      → lookup j w.net.name_to_node ≡ some x
      → m.id ≡ x.id
      → n ≡ j

-- A site in which a name has a new object.
pub insert-HasOwnIds :
    (k : String) (m : Member) (w w' : Site)
    → m.id ≡ w.next
    → w'.next ≡ w.next + 1
    → w'.net.name_to_node ≡ insert k m w.net.name_to_node
    → HasOwnIds w
    → HasOwnIds w'
insert-HasOwnIds k m w w' new next nodes h = record {
  below = λ n x found.
      ground (
        arith,
        lookup-insert k n m w.net.name_to_node,
        h.below n x,
        (rw nodes at found),
        new,
        next,
      );
  one_name = λ n j x y found_n found_j same. ground (
    arith,
    lookup-insert k n m w.net.name_to_node,
    lookup-insert k j m w.net.name_to_node,
    eq_iff k n,
    eq_iff k j,
    h.below n x,
    h.below j y,
    h.one_name n j x y,
    (rw nodes at found_n),
    (rw nodes at found_j),
    same,
    new,
  );
}

pub insert-agrees :
    (k : String) (m : Member) (d : Dict Member)
    → m.name ≡ k
    → ((n : String) (x : Member) → lookup n d ≡ some x → x.name ≡ n)
    → (n : String) (x : Member) → lookup n (insert k m d) ≡ some x
    → x.name ≡ n
insert-agrees k m d e h n x found =
    ground (arith, lookup-insert k n m d, eq_iff k n, h n x, e, found)

-- What the class of a controller returns has the name that it was called with.
abbrev pub AreNamed : ℕ → List Default → Type 0
AreNamed i [] = Unit
AreNamed i (instance_of c ∷ cs) = AreNamed (i + 1) cs
AreNamed i (made none ∷ cs) = AreNamed (i + 1) cs
AreNamed i (made (some c) ∷ cs) = (c.name ≡ cat ("c" ∷ show_ℕ i ∷ [])) × AreNamed (i + 1) cs

-- Adding controllers changes the controllers and the names.
abbrev pub controlled : List Member → Dict Member → Mininet → Mininet
controlled cs d net = record net { controllers = cs; name_to_node = d }

add_defaults-controlled :
    (i : ℕ) (defaults : List Default) (net : Mininet)
    → AreNamed i defaults
    → AgreesOnNames net
    → (cs : List Member) × (d : Dict Member) × (add_defaults i defaults net ≡ controlled cs d net)
      × AgreesOnNames (controlled cs d net)
unfolding add_defaults
add_defaults-controlled i [] net named agrees = (net.controllers, net.name_to_node, refl, agrees)
add_defaults-controlled i (instance_of c ∷ cs) net named agrees =
    add_defaults-controlled (i + 1) cs _ named (insert-agrees c.name c net.name_to_node refl agrees)
add_defaults-controlled i (made none ∷ cs) net named agrees =
    add_defaults-controlled (i + 1) cs net named agrees
add_defaults-controlled i (made (some c) ∷ cs) net named agrees =
    add_defaults-controlled (i + 1) cs _ named.1 (insert-agrees _ c net.name_to_node named.0 agrees)

pub with_controllers-controlled :
    (defaults : List Default) (old : List Member) (net : Mininet)
    → AreNamed 0 defaults
    → AgreesOnNames net
    → (cs : List Member) × (d : Dict Member) × (with_controllers defaults old net
        ≡ controlled cs d net)
      × AgreesOnNames (controlled cs d net)
with_controllers-controlled defaults [] net named agrees =
    add_defaults-controlled 0 defaults net named agrees
with_controllers-controlled defaults (c ∷ cs) net named agrees =
    (net.controllers, net.name_to_node, refl, agrees)
