-- ===== src/Emulation/Cables/Removal.antt =====
-- What `removeLink` of mininet/net.py takes out of the links.
use mathlib.Core.Path.{subst}
use faultynet.Shared.{
  ℕ, ◌≡◌, ◌≢◌, refl, sym, ap, ◌∙◌, Bool, not, true, false, Bool-cases, inl, inr, Option, none, some,
  List, [], ◌∷◌, All, arith,
}
use faultynet.Helpers.{keep}
use faultynet.Emulation.Cables.{
  Cable, joins, links_between, remove_cable, find_link, remove_found, remove_link,
}

-- No link stands in the list twice.
abbrev pub HasNoTwins : List Cable → Type 0
HasNoTwins [] = Unit
HasNoTwins (l ∷ links) = All (λ m. l.id ≢ m.id) links × HasNoTwins links

abbrev tail : List Cable → List Cable
tail [] = []
tail (l ∷ links) = links

find-joins :
    (a b : ℕ) (l : Cable) (links : List Cable)
    → joins a b l ≡ true
    → find_link a b (l ∷ links) ≡ some l
unfolding find_link
find-joins a b l links e = ground (arith, e)

find-passes :
    (a b : ℕ) (l : Cable) (links : List Cable)
    → joins a b l ≡ false
    → find_link a b (l ∷ links) ≡ find_link a b links
unfolding find_link
find-passes a b l links e = ground (arith, e)

found_other :
    (a b id : ℕ) (links : List Cable) (l : Cable)
    → All (λ m. id ≢ m.id) links
    → find_link a b links ≡ some l
    → id ≢ l.id
unfolding find_link
found_other a b id [] l all e = absurd cc
found_other a b id (m ∷ links) l all e = elim (Bool-cases (joins a b m)) [
  | inl j ↦ ground (arith, j, e, all.0)
  | inr j ↦ found_other a b id links l all.1 (sym (find-passes a b m links j) ∙ e)
]

remove_passes :
    (a b : ℕ) (m : Cable) (links : List Cable) (o : Option Cable)
    → All (λ l. m.id ≢ l.id) links
    → find_link a b links ≡ o
    → remove_found o (m ∷ links) ≡ m ∷ remove_found o links
unfolding remove_cable
remove_passes a b m links none all e = refl
remove_passes a b m links (some l) all e =
    let other = found_other a b m.id links l all e in ground (arith, other)

remove_here : (m : Cable) (links : List Cable) → remove_cable m.id (m ∷ links) ≡ links
unfolding remove_cable
remove_here m links = ground arith

keep-true :
    (p : Cable → Bool) (m : Cable) (links : List Cable)
    → p m ≡ true
    → keep p (m ∷ links) ≡ m ∷ keep p links
unfolding keep
keep-true p m links h = rw h refl

keep-false :
    (p : Cable → Bool) (m : Cable) (links : List Cable)
    → p m ≡ false
    → keep p (m ∷ links) ≡ keep p links
unfolding keep
keep-false p m links h = rw h refl

module _ (a b : ℕ) where
  abbrev others : Cable → Bool
  others l = not (joins a b l)

  -- What is left of the links between the nodes, and of all others.
  abbrev IsRemoval : Option Cable → List Cable → Type 0
  IsRemoval o links =
      (keep (joins a b) (remove_found o links) ≡ tail (keep (joins a b) links))
      × (keep others (remove_found o links) ≡ keep others links)

  first_goes :
      (m : Cable) (links : List Cable) → joins a b m ≡ true → IsRemoval (some m) (m ∷ links)
  first_goes m links j = (
    ap (keep (joins a b)) (remove_here m links) ∙ sym (ap tail (keep-true (joins a b) m links j)),
    ap (keep others) (remove_here m links) ∙ sym (keep-false others m links (ap not j)),
  )

  removes :
      (links : List Cable) (o : Option Cable)
      → HasNoTwins links
      → find_link a b links ≡ o
      → IsRemoval o links
  unfolding keep find_link
  removes [] none h e = (refl, refl)
  removes [] (some l) h e = absurd cc
  removes (m ∷ links) o h e = elim (Bool-cases (joins a b m)) [
    | inl j ↦
        subst (λ o. IsRemoval o (m ∷ links)) (sym (find-joins a b m links j) ∙ e)
          (first_goes m links j)
    | inr j ↦
        let found = sym (find-passes a b m links j) ∙ e in
        let (here, away) = removes links o h.1 found in
        let passes = remove_passes a b m links o h.0 found in
        (
          ap (keep (joins a b)) passes
              ∙ keep-false (joins a b) m (remove_found o links) j
              ∙ here
              ∙ sym (ap tail (keep-false (joins a b) m links j)),
          ap (keep others) passes
              ∙ keep-true others m (remove_found o links) (ap not j)
              ∙ ap (λ l. m ∷ l) away
              ∙ sym (keep-true others m links (ap not j)),
        )
  ]

  -- `removeLink` of two nodes takes the first of the links between them out of the list, in whichever
  -- direction it was made, and no link of other nodes; where there is none, nothing changes.
  -- No link may stand in the list twice.
  remove_link-links_between :
      (links : List Cable)
      → HasNoTwins links
      → (links_between a b (remove_link a b links) ≡ tail (links_between a b links))
        × (keep others (remove_link a b links) ≡ keep others links)
  unfolding links_between remove_link
  remove_link-links_between links h = removes links (find_link a b links) h refl
