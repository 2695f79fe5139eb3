-- ===== src/Emulation/Cables.antt =====
-- mininet/net.py: the links of a network, found and removed by the nodes that they join. Numbers stand
-- for the objects; what `Link.delete` does to the nodes is in `Interfaces`.
pub mod Removal
use faultynet.Shared.{
  ℕ, ◌==◌, Bool, true, false, ◌&&◌, ◌||◌, Option, none, some, List, [], ◌∷◌, get_elem?, Result, ok,
  err, index_error, ◌>>=◌, if◌then◌else◌,
}
use faultynet.Helpers.{keep}

pub record Cable : Type 0 where
  pub id : ℕ
  pub node1 : ℕ
  pub node2 : ℕ

-- `( node1, node2 ) in ( ends, ends the other way round )`
abbrev pub joins : ℕ → ℕ → Cable → Bool
joins a b l = (a == l.node1 && b == l.node2) || (a == l.node2 && b == l.node1)

-- `linksBetween`
unfoldable pub links_between : ℕ → ℕ → List Cable → List Cable
unfolding keep
links_between a b links = keep (joins a b) links

-- `self.links.remove( link )`
unfoldable pub remove_cable : ℕ → List Cable → List Cable
remove_cable id [] = []
remove_cable id (l ∷ links) =
    let rest = l ∷ remove_cable id links in if l.id == id then links else rest

-- The loop of `removeLink` over the links
unfoldable pub find_link : ℕ → ℕ → List Cable → Option Cable
find_link a b [] = none
find_link a b (l ∷ links) =
    let rest = find_link a b links in
    if l.node1 == a && l.node2 == b
    then some l
    else if l.node1 == b && l.node2 == a
    then some l
    else rest

-- Without a link, an error is logged.
abbrev pub remove_found : Option Cable → List Cable → List Cable
remove_found none links = links
remove_found (some l) links = remove_cable l.id links

-- `removeLink`, of two nodes
unfoldable pub remove_link : ℕ → ℕ → List Cable → List Cable
unfolding find_link remove_cable
remove_link a b links = remove_found (find_link a b links) links

-- `delLink` of each
unfoldable pub del_links : List Cable → List Cable → List Cable
unfolding remove_cable
del_links [] links = links
del_links (l ∷ ls) links = del_links ls (remove_cable l.id links)

abbrev chosen : Bool → ℕ → List Cable → Result (List Cable)
chosen true index found = ok found
chosen false index found = elim (get_elem? found index) [
  | none ↦ err index_error
  | some l ↦ ok (l ∷ [])
]

-- `delLinkBetween`, for an index that is not negative: the links that are left, and those deleted
unfoldable pub del_link_between : ℕ → ℕ → ℕ → Bool → List Cable → Result (List Cable × List Cable)
unfolding links_between del_links
del_link_between a b index all_links links =
    chosen all_links index (links_between a b links) >>= λ found. ok (del_links found links, found)
