-- ===== src/Controllers/RandomLink/Sampling.antt =====
-- Which injectors a run over randomly chosen links has.
use faultynet.Shared.{
  ℕ, ◌*◌, ◌≤◌, ◌≡◌, refl, false, some, List, [], ◌∷◌, length, All, pos, ok, ltb, arith, ◌≤ℤ◌,
  String,
}
use faultynet.Values.{Floats}
use faultynet.Injectors.Link.{LinkInjector}
use faultynet.Controllers.LinkPairs.{End, LinkFault, injector_at, get_injectors_for_ends}
use faultynet.Controllers.RandomLink.{
  RandomLinks, random_runs, sample, get_injectors_for_link, injectors_for_links,
  do_iteration_with_n_links,
}

-- A link that joins two interfaces.
abbrev pub IsPair : List End → Type 0
IsPair link = 2 ≤ length link

module _ {F : Floats} (fault : LinkFault F) (t : String) (typed : fault.fault_type ≡ some t) where
  injectors_for_pairs :
      (links : List (List End))
      → All IsPair links
      → (is : List (LinkInjector F)) × (injectors_for_links fault links ≡ ok is)
        × (length is ≡ 2 * length links)
  unfolding injectors_for_links get_injectors_for_link get_injectors_for_ends
  injectors_for_pairs [] all = ([], refl, omega arith)
  injectors_for_pairs ([] ∷ links) all = absurd (omega (arith, all.0))
  injectors_for_pairs ((a ∷ []) ∷ links) all = absurd (omega (arith, all.0))
  injectors_for_pairs ((a ∷ b ∷ rest) ∷ links) all =
      let (is, e, n) = injectors_for_pairs links all.1 in
      (injector_at fault t a b ∷ injector_at fault t b a ∷ is, rw (typed, e) refl, omega (arith, n))

-- Where the fault type was recognised and every link joins two interfaces: each run whose number
-- lies in the range of `go` has injectors, two for each link that it is to choose, if the choice
-- gives as many links as it is asked for and takes them from the list.
pub iteration_injects :
    {F : Floats} (choose : List (List End) → ℕ → List (List End)) (self : RandomLinks F)
    (t : String) (n : ℕ)
    → ((k : ℕ)
        → k ≤ length self.target_links_list
        → (length (choose self.target_links_list k) ≡ k)
          × All IsPair (choose self.target_links_list k))
    → self.fault.fault_type ≡ some t
    → pos n ≤ℤ (random_runs self).last_run
    → (is : List (LinkInjector F)) × (do_iteration_with_n_links choose self (pos n) ≡ ok is)
      × (length is ≡ 2 * n)
unfolding do_iteration_with_n_links sample random_runs
iteration_injects choose self t n law typed h =
    let fits : n ≤ length self.target_links_list = ground arith in
    let enough : ltb (length self.target_links_list) n ≡ false = ground arith in
    let (size, pairs) = law n fits in
    let (is, e, m) = injectors_for_pairs self.fault t typed _ pairs in
    (is, rw (enough, e) refl, omega (arith, m, size))
