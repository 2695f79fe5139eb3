-- ===== src/Controllers/MostUsedLink/Growth.antt =====
-- How the list of links with a fault grows over the runs.
use faultynet.Shared.{
  Bool, true, ◌||◌, str_eq, eq_iff, refl, ℕ, suc, ◌+◌, ◌≢◌, ◌∙◌, get_elem?, Option-cases, ◌≡◌,
  false, none, some, List, [], ◌∷◌, ◌++◌, All, ok, Result, arith, ap, sym, ok-injective, err-ne-ok,
  Result-cases, inl, inr, ◌⊎◌, Bool-cases,
}
use mathlib.Core.Option.{some-injective}
use faultynet.Values.{Floats}
use faultynet.Injectors.Link.{LinkInjector}
use faultynet.Controllers.AgnosticLink.{AgnosticLink, HashKey, is_same_element}
use faultynet.Controllers.MostUsedLink.{
  MostUsedLinks, Output, Busiest, no_link, most_trafficked, get_traffic_on_link, enumerate, refer,
  is_element, set_difference, append_found, injectors_for, do_next_iteration,
}
use faultynet.Controllers.MostUsedLink.Choice.{busiest_chosen, IsReached}

-- No link of the others has the hash of the link of the entry and equals it.
abbrev pub IsFresh : (HashKey → ℕ) → List (ℕ × AgnosticLink) → ℕ × AgnosticLink → Type 0
IsFresh hash others entry = is_element hash entry.1 others ≡ false

-- The entry is the object that its reference stands for, and it is fresh.
abbrev IsCandidate :
    (HashKey → ℕ) → List AgnosticLink → List (ℕ × AgnosticLink) → ℕ × AgnosticLink → Type 0
IsCandidate hash links others entry =
    (get_elem? links entry.0 ≡ some entry.1) × IsFresh hash others entry

enumerate-All :
    (links xs : List AgnosticLink) (i : ℕ)
    → ((m : ℕ) → get_elem? links (i + m) ≡ get_elem? xs m)
    → All (λ entry. get_elem? links entry.0 ≡ some entry.1) (enumerate i xs)
enumerate-All links [] i h = tt
enumerate-All links (x ∷ xs) i h =
    let here : i + 0 ≡ i = omega arith in
    (
      ap (get_elem? links) (sym here) ∙ h 0,
      enumerate-All links xs (suc i) (λ m.
          let next : suc i + m ≡ i + suc m = omega arith in ap (get_elem? links) next ∙ h (suc m)),
    )

zero_add : (m : ℕ) → 0 + m ≡ m
zero_add m = omega arith

or_false : (a b : Bool) → (a || b) ≡ false → (a ≡ false) × (b ≡ false)
or_false a b h = ground arith

same_link : (hash : HashKey → ℕ) (l : AgnosticLink) → is_same_element hash l l ≡ true
unfolding is_same_element
same_link hash l =
    let same1 : str_eq l.link1_name l.link1_name ≡ true =
      (eq_iff l.link1_name l.link1_name).1 refl in
    let same2 : str_eq l.link2_name l.link2_name ≡ true =
      (eq_iff l.link2_name l.link2_name).1 refl in
    ground (arith, same1, same2)

module _ (hash : HashKey → ℕ) (links : List AgnosticLink) where
  fewer :
      (entry : ℕ × AgnosticLink) (others xs : List (ℕ × AgnosticLink))
      → All (IsCandidate hash links (entry ∷ others)) xs
      → All (IsCandidate hash links others) xs
  fewer entry others [] all = tt
  fewer entry others (e ∷ xs) all =
      ((all.0.0, ground (arith, all.0.1)), fewer entry others xs all.1)

  set_difference-IsCandidate :
      (xs others : List (ℕ × AgnosticLink))
      → All (λ entry. get_elem? links entry.0 ≡ some entry.1) xs
      → All (IsCandidate hash links others) (set_difference hash xs others)
  unfolding set_difference
  set_difference-IsCandidate [] others all = tt
  set_difference-IsCandidate ((i, link) ∷ xs) others all =
      elim (Bool-cases (is_element hash link others)) [
        | inl there ↦ rw there (set_difference-IsCandidate xs others all.1)
        | inr new ↦ rw new (
          (all.0, new),
          fewer (i, link) others _ (set_difference-IsCandidate xs ((i, link) ∷ others) all.1),
        )
      ]

  -- A fresh link is at no place that the others refer to.
  fresh_elsewhere :
      (i : ℕ) (link : AgnosticLink) (is : List ℕ)
      → get_elem? links i ≡ some link
      → is_element hash link (refer links is) ≡ false
      → All (λ j. j ≢ i) is
  fresh_elsewhere i link [] at fresh = tt
  fresh_elsewhere i link (j ∷ is) at fresh = elim (Option-cases (get_elem? links j)) [
    | inl absent ↦ (
      λ e.
          let same : some link ≡ none = sym at ∙ ap (get_elem? links) (sym e) ∙ absent in absurd cc,
      fresh_elsewhere i link is at (rw (refer, absent) at fresh),
    )
    | inr (other, there) ↦
        let parts = or_false _ _ (rw (refer, there) at fresh) in
        (
          λ e.
              let same = some-injective other link (sym there ∙ ap (get_elem? links) e ∙ at) in
              let clash : true ≡ false =
                sym (same_link hash link)
                ∙ ap (λ l. is_same_element hash l link) (sym same)
                ∙ parts.0 in
              absurd cc,
          fresh_elsewhere i link is at parts.1,
        )
  ]

-- What a run chooses has the property that all of its links have.
chosen-All :
    (traffic : AgnosticLink → Result _) (P : ℕ × AgnosticLink → Type 0)
    (links : List (ℕ × AgnosticLink)) (best : Busiest)
    → All P links
    → IsReached traffic no_link best links
    → (best.link ≡ none) ⊎ ((i : ℕ) × (link : AgnosticLink) × (best.link ≡ some i) × P (i, link))
chosen-All traffic P [] best all h = inl (ap (λ b. b.link) h)
chosen-All traffic P ((i, link) ∷ links) best all (inl here) = inr (i, link, here.0, all.0)
chosen-All traffic P ((i, link) ∷ links) best all (inr h) = chosen-All traffic P links best all.1 h

-- The parts of an iteration that did not raise.
iteration_parts :
    {F : Floats} (hash : HashKey → ℕ) (order : List (ℕ × AgnosticLink) → List (ℕ × AgnosticLink))
    (run : Output) (self self' : MostUsedLinks F) (is : List (LinkInjector F))
    → do_next_iteration hash order run self ≡ ok (self', is)
    → (r : Busiest × List AgnosticLink) × (most_trafficked
          (get_traffic_on_link F run)
          (order (
            set_difference hash
              (enumerate 0 self.target_links_list)
              (refer self.target_links_list self.links_to_inject)))
          no_link
          self.target_links_list
        ≡ ok r)
      × (self'.links_to_inject ≡ append_found self.links_to_inject r.0.link)
unfolding do_next_iteration
iteration_parts {F} hash order run self self' is h =
    let uninjected = order (
      set_difference hash (enumerate 0 self.target_links_list)
        (refer self.target_links_list self.links_to_inject)) in
    elim (Result-cases
      (most_trafficked (get_traffic_on_link F run) uninjected no_link self.target_links_list)) [
        | inl (r, e) ↦
            elim (Result-cases
              (injectors_for self.fault (refer r.1 (append_found self.links_to_inject r.0.link)))) [
                | inl (js, e') ↦
                    (r, e, ap (λ q. q.0.links_to_inject) (sym (ok-injective (rw (e, e') at h))))
                | inr (x, e') ↦ absurd (err-ne-ok (rw (e, e') at h))
              ]
        | inr (x, e) ↦ absurd (err-ne-ok (rw e at h))
      ]

-- A run that does not raise keeps the links that have a fault, and adds none or one at the end. The
-- one that it adds is the link at its place of the list, it is at none of the places that have a
-- fault, and no link with a fault has its hash and equals it. The order of a set is to bring in no
-- new element.
pub iteration_grows :
    {F : Floats} (hash : HashKey → ℕ) (order : List (ℕ × AgnosticLink) → List (ℕ × AgnosticLink))
    (run : Output) (self self' : MostUsedLinks F) (is : List (LinkInjector F))
    → ((P : ℕ × AgnosticLink → Type 0) (xs : List (ℕ × AgnosticLink)) → All P xs → All P (order xs))
    → do_next_iteration hash order run self ≡ ok (self', is)
    → (self'.links_to_inject ≡ self.links_to_inject)
      ⊎ ((i : ℕ) × (link : AgnosticLink) × (self'.links_to_inject
            ≡ self.links_to_inject ++ (i ∷ []))
          × (get_elem? self.target_links_list i ≡ some link)
          × All (λ j. j ≢ i) self.links_to_inject
          × (is_element hash link (refer self.target_links_list self.links_to_inject) ≡ false))
iteration_grows {F} hash order run self self' is law h =
    let links = self.target_links_list in
    let old = refer links self.links_to_inject in
    let (r, e, q) = iteration_parts hash order run self self' is h in
    let candidates = law (IsCandidate hash links old) _ (
      set_difference-IsCandidate hash links (enumerate 0 links) old
        (enumerate-All links links 0 (λ m. ap (get_elem? links) (zero_add m)))) in
    elim (chosen-All (get_traffic_on_link F run) (IsCandidate hash links old) _ r.0 candidates
      (busiest_chosen (get_traffic_on_link F run) _ _ r e).1) [
        | inl none_found ↦ inl (rw none_found at q)
        | inr (i, link, found, (there, new)) ↦ inr (
          i,
          link,
          rw found at q,
          there,
          fresh_elsewhere hash links i link self.links_to_inject there new,
          new,
        )
      ]
