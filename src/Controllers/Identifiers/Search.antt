-- ===== src/Controllers/Identifiers/Search.antt =====
-- The interface that `_get_node_and_interface_name_from_identifier_string` finds, among all that
-- fit the two nodes.
use mathlib.Core.Path.{subst}
use mathlib.Core.Option.{some-injective}
use faultynet.Shared.{
  All, Option-cases, Bool-cases, inl, inr, eq_iff, String, ◌≡◌, refl, Option, none, some, List, [],
  ◌∷◌, arith, str_eq, if◌then◌else◌,
}
use faultynet.Network.{Intf, Link}
use faultynet.Controllers.Identifiers.{endpoint, search_links}

-- The interfaces of the first node towards the second, in the order of the links.
pub candidates : String → String → List Link → List Intf
candidates a b [] = []
candidates a b (link ∷ links) =
    let rest = candidates a b links in elim (endpoint a b link) [ none ↦ rest | some i ↦ i ∷ rest ]

abbrev pub first_named : String → List Intf → Option Intf
first_named name [] = none
first_named name (i ∷ is) = if str_eq name i.name then some i else first_named name is

abbrev pub last_or : Option Intf → List Intf → Option Intf
last_or d [] = d
last_or d (i ∷ is) = last_or (some i) is

-- With an interface's name, the search returns the first fitting interface of that name, and none
-- if there is none.
pub search_links-eq-first_named :
    (a b name : String) (links : List Link)
    → search_links a b (some name) links none ≡ first_named name (candidates a b links)
unfolding search_links candidates
search_links-eq-first_named a b name [] = refl
search_links-eq-first_named a b name (link ∷ links) =
    ground (arith, search_links-eq-first_named a b name links)

-- Without one, it returns the last fitting interface, and what it had before if none fits.
pub search_links-eq-last_or :
    (a b : String) (links : List Link) (found : Option Intf)
    → search_links a b none links found ≡ last_or found (candidates a b links)
unfolding search_links candidates
search_links-eq-last_or a b [] found = refl
search_links-eq-last_or a b (link ∷ links) found = ground (
  arith,
  search_links-eq-last_or a b links found,
  search_links-eq-last_or a b links (some link.intf1),
  search_links-eq-last_or a b links (some link.intf2),
)

abbrev pub pick : Option String → List Intf → Option Intf
pick none is = last_or none is
pick (some name) is = first_named name is

-- The search returns, of the interfaces that the first node has towards the second, in the order of
-- the links: the first with the wanted name, or the last of all where no name is wanted.
pub search_links-eq-pick :
    (a b : String) (wanted : Option String) (links : List Link)
    → search_links a b wanted links none ≡ pick wanted (candidates a b links)
search_links-eq-pick a b none links = search_links-eq-last_or a b links none
search_links-eq-pick a b (some name) links = search_links-eq-first_named a b name links

endpoint_node :
    (a b : String) (link : Link) (i : Intf) → endpoint a b link ≡ some i → i.node.name ≡ a
unfolding endpoint
endpoint_node a b link i h = ground (
  arith,
  eq_iff link.intf1.node.name a,
  eq_iff link.intf2.node.name b,
  eq_iff link.intf1.node.name b,
  eq_iff link.intf2.node.name a,
)

candidates_node :
    (a b : String) (links : List Link) → All (λ i. i.node.name ≡ a) (candidates a b links)
unfolding candidates
candidates_node a b [] = tt
candidates_node a b (link ∷ links) = elim (Option-cases (endpoint a b link)) [
  | inl e ↦ rw (e, candidates) (candidates_node a b links)
  | inr (i, e) ↦ rw (e, candidates) (endpoint_node a b link i e, candidates_node a b links)
]

module _ (P : Intf → Type 0) where
  last_or-All :
      (is : List Intf) (d : Option Intf) (i : Intf)
      → All P is
      → ((j : Intf) → d ≡ some j → P j)
      → last_or d is ≡ some i
      → P i
  last_or-All [] d i all h e = h i e
  last_or-All (x ∷ is) d i all h e =
      last_or-All is (some x) i all.1 (λ j q. subst P (some-injective x j q) all.0) e

  first_named-All :
      (name : String) (is : List Intf) (i : Intf)
      → All P is
      → first_named name is ≡ some i
      → P i × (i.name ≡ name)
  first_named-All name [] i all e = cc
  first_named-All name (x ∷ is) i all e = elim (Bool-cases (str_eq name x.name)) [
    | inl same ↦
        let q : x ≡ i = some-injective x i (rw same at e) in
        (subst P q all.0, cc (q, (eq_iff name x.name).0 same))
    | inr other ↦ first_named-All name is i all.1 (rw other at e)
  ]

-- An interface that is found is one of the node in front of the arrow, and has the wanted name if
-- there is one.
search_links_sound :
    (a b : String) (wanted : Option String) (links : List Link) (i : Intf)
    → search_links a b wanted links none ≡ some i
    → (i.node.name ≡ a) × ((name : String) → wanted ≡ some name → i.name ≡ name)
search_links_sound a b none links i e =
    let q = search_links-eq-pick a b none links in
    let picked : last_or none (candidates a b links) ≡ some i = rw q at e in
    (
      last_or-All _ (candidates a b links) none i (candidates_node a b links) (λ j r. cc) picked,
      λ name r. cc,
    )
search_links_sound a b (some name) links i e =
    let q = search_links-eq-pick a b (some name) links in
    let picked : first_named name (candidates a b links) ≡ some i = rw q at e in
    let (node, same) =
      first_named-All _ name (candidates a b links) i (candidates_node a b links) picked in
    (node, λ other r. cc)
