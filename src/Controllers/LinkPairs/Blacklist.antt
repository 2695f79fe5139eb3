-- ===== src/Controllers/LinkPairs/Blacklist.antt =====
-- The links that a starter passes to its controller.
use faultynet.Shared.{
  ◌⊎◌, eq_iff, String, ◌≡◌, refl, true, false, Bool-cases, inl, inr, Bool, List, [], ◌∷◌, All, any,
  str_eq, if◌then◌else◌, arith,
}
use faultynet.Network.{Intf, Link}
use faultynet.Controllers.LinkPairs.{
  End, end_of, same_end, link_element, is_blacklisted, links_list,
}

-- No end lies on a node of the blacklist.
abbrev pub IsAllowed : List String → List End → Type 0
IsAllowed blacklist ends = All (λ e. any (str_eq e.node_name) blacklist ≡ false) ends

link_element-IsAllowed :
    (comes_first : End → End → Bool) (blacklist : List String) (link : Link)
    → is_blacklisted blacklist link ≡ false
    → IsAllowed blacklist (link_element comes_first link)
unfolding is_blacklisted
link_element-IsAllowed comes_first blacklist link h =
    let one : any (str_eq link.intf1.node.name) blacklist ≡ false = ground arith in
    let two : any (str_eq link.intf2.node.name) blacklist ≡ false = ground arith in
    elim (Bool-cases (same_end (end_of link.intf1) (end_of link.intf2))) [
      | inl same ↦ rw same (one, tt)
      | inr other ↦ elim (Bool-cases (comes_first (end_of link.intf1) (end_of link.intf2))) [
        | inl first ↦ rw (other, first) (one, (two, tt))
        | inr last ↦ rw (other, last) (two, (one, tt))
      ]
    ]

-- The links that have no end on the blacklist, in their order.
abbrev pub allowed_links : List String → List Link → List Link
allowed_links blacklist [] = []
allowed_links blacklist (link ∷ links) =
    let rest = allowed_links blacklist links in
    if any (str_eq link.intf1.node.name) blacklist
    then rest
    else if any (str_eq link.intf2.node.name) blacklist
    then rest
    else link ∷ rest

-- The process of the node, the interface's name and the node's name.
abbrev IsEnd : End → Intf → Type 0
IsEnd e i = (e.pid ≡ i.node.pid) × (e.interface_name ≡ i.name) × (e.node_name ≡ i.node.name)

-- The element lists the two ends of the link, in one order or the other; or the link has the same
-- end twice and the element lists it once.
abbrev pub IsEnds : List End → Link → Type 0
IsEnds (a ∷ b ∷ []) link =
    (IsEnd a link.intf1 × IsEnd b link.intf2) ⊎ (IsEnd a link.intf2 × IsEnd b link.intf1)
IsEnds (a ∷ []) link = IsEnd a link.intf1 × IsEnd a link.intf2
IsEnds _ link = ⊥

-- One element for each link, in the order of the links.
abbrev pub AreEnds : List (List End) → List Link → Type 0
AreEnds [] [] = Unit
AreEnds (ends ∷ rest) (link ∷ links) = IsEnds ends link × AreEnds rest links
AreEnds _ _ = ⊥

end_of-IsEnd : (i : Intf) → IsEnd (end_of i) i
end_of-IsEnd i = (refl, refl, refl)

same_end-IsEnd : (a : End) (i : Intf) → same_end a (end_of i) ≡ true → IsEnd a i
same_end-IsEnd a i h =
    let interfaces : str_eq a.interface_name i.name ≡ true = ground arith in
    let nodes : str_eq a.node_name i.node.name ≡ true = ground arith in
    (
      ground arith,
      (eq_iff a.interface_name i.name).0 interfaces,
      (eq_iff a.node_name i.node.name).0 nodes,
    )

link_element-IsEnds :
    (comes_first : End → End → Bool) (link : Link) → IsEnds (link_element comes_first link) link
link_element-IsEnds comes_first link =
    let one = end_of-IsEnd link.intf1 in
    let two = end_of-IsEnd link.intf2 in
    elim (Bool-cases (same_end (end_of link.intf1) (end_of link.intf2))) [
      | inl same ↦ rw same (one, same_end-IsEnd (end_of link.intf1) link.intf2 same)
      | inr other ↦ elim (Bool-cases (comes_first (end_of link.intf1) (end_of link.intf2))) [
        | inl first ↦ rw (other, first) (inl (one, two))
        | inr last ↦ rw (other, last) (inr (two, one))
      ]
    ]

allowed-black :
    (blacklist : List String) (link : Link) (links : List Link)
    → is_blacklisted blacklist link ≡ true
    → allowed_links blacklist (link ∷ links) ≡ allowed_links blacklist links
unfolding is_blacklisted
allowed-black blacklist link links h = ground arith

allowed-white :
    (blacklist : List String) (link : Link) (links : List Link)
    → is_blacklisted blacklist link ≡ false
    → allowed_links blacklist (link ∷ links) ≡ link ∷ allowed_links blacklist links
unfolding is_blacklisted
allowed-white blacklist link links h = ground arith

-- In whatever order a set lists its elements: the starter passes one element for each link with no
-- end on a node of the blacklist, in the order of the links. It holds the process, the interface's
-- name and the node's name of both ends of its link, once if they are the same, and none of them
-- lies on a node of the blacklist.
pub links_list-IsAllowed :
    (comes_first : End → End → Bool) (blacklist : List String) (links : List Link)
    → All (IsAllowed blacklist) (links_list comes_first blacklist links)
      × AreEnds (links_list comes_first blacklist links) (allowed_links blacklist links)
unfolding links_list
links_list-IsAllowed comes_first blacklist [] = (tt, tt)
links_list-IsAllowed comes_first blacklist (link ∷ links) =
    let (all, ends) = links_list-IsAllowed comes_first blacklist links in
    elim (Bool-cases (is_blacklisted blacklist link)) [
      | inl black ↦ rw (black, allowed-black blacklist link links black) (all, ends)
      | inr white ↦
          rw (white, allowed-white blacklist link links white)
            (
              (link_element-IsAllowed comes_first blacklist link white, all),
              (link_element-IsEnds comes_first link, ends),
            )
    ]
