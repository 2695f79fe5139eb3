-- ===== src/Controllers/MostUsedLink/Choice.antt =====
-- The link that a run adds to those with a fault.
use mathlib.Core.Path.{subst}
use faultynet.Shared.{
  ℕ, ◌≡◌, some, List, [], ◌∷◌, All, set, ℤ, ◌-ℤ◌, ◌≤ℤ◌, ≤ℤ_refl, ≤ℤ_trans, Result, ok, ltb_ℤ, arith,
  ap, sym, ◌∙◌, ok-injective, err-ne-ok, Result-cases, inl, inr, ◌⊎◌, Bool-cases,
}
use faultynet.Controllers.AgnosticLink.{AgnosticLink}
use faultynet.Controllers.MostUsedLink.{Busiest, busier, most_trafficked, no_link}

busier_bounds :
    (i : ℕ) (since : ℤ) (best : Busiest)
    → (best.max_traffic ≤ℤ (busier i since best).max_traffic)
      × (since ≤ℤ (busier i since best).max_traffic)
unfolding busier
busier_bounds i since best = ground arith

module _ (traffic : AgnosticLink → Result ℤ) where
  -- A round of the loop that did not raise.
  round_of :
      (i : ℕ) (link : AgnosticLink) (rest : List (ℕ × AgnosticLink)) (best : Busiest)
      (links : List AgnosticLink) (r : Busiest × List AgnosticLink)
      → most_trafficked traffic ((i, link) ∷ rest) best links ≡ ok r
      → (now : ℤ) × (traffic link ≡ ok now)
        × (most_trafficked traffic rest
              (busier i (now -ℤ link.traffic) best)
              (set links i (record link { traffic = now }))
            ≡ ok r)
  unfolding most_trafficked
  round_of i link rest best links r h = elim (Result-cases (traffic link)) [
    | inl (now, e) ↦ (now, e, rw e at h)
    | inr (x, e) ↦ absurd (err-ne-ok (rw e at h))
  ]

  -- The traffic of a link since the last run.
  abbrev pub IsAtMost : ℤ → ℕ × AgnosticLink → Type 0
  IsAtMost bound (i, link) = (now : ℤ) → traffic link ≡ ok now → now -ℤ link.traffic ≤ℤ bound

  grows :
      (links : List (ℕ × AgnosticLink)) (best : Busiest) (store : List AgnosticLink)
      (r : Busiest × List AgnosticLink)
      → most_trafficked traffic links best store ≡ ok r
      → (best.max_traffic ≤ℤ r.0.max_traffic) × All (IsAtMost r.0.max_traffic) links
  unfolding most_trafficked
  grows [] best store r h =
      let e = ap (λ q. q.0.max_traffic) (ok-injective h) in
      (subst (λ m. best.max_traffic ≤ℤ m) e (≤ℤ_refl best.max_traffic), tt)
  grows ((i, link) ∷ links) best store r h =
      let (now, e, later) = round_of i link links best store r h in
      let (up, all) = grows links _ _ r later in
      let (over, since) = busier_bounds i (now -ℤ link.traffic) best in
      (
        ≤ℤ_trans best.max_traffic _ r.0.max_traffic over up,
        (
          (λ now' e'.
              subst (λ n. n -ℤ link.traffic ≤ℤ r.0.max_traffic) (ok-injective (sym e ∙ e'))
                (≤ℤ_trans (now -ℤ link.traffic) _ r.0.max_traffic since up)),
          all,
        ),
      )

  -- The choice is that of before, or one of the links reaches it.
  abbrev pub IsReached : Busiest → Busiest → List (ℕ × AgnosticLink) → Type 0
  IsReached before best [] = best ≡ before
  IsReached before best ((i, link) ∷ links) =
      ((best.link ≡ some i)
        × (now : ℤ) × (traffic link ≡ ok now)
        × (best.max_traffic ≡ now -ℤ link.traffic))
      ⊎ IsReached before best links

  pass_on :
      (i : ℕ) (link : AgnosticLink) (links : List (ℕ × AgnosticLink)) (now : ℤ)
      (before best : Busiest)
      → traffic link ≡ ok now
      → IsReached (busier i (now -ℤ link.traffic) before) best links
      → IsReached before best ((i, link) ∷ links)
  unfolding busier
  pass_on i link [] now before best e h =
      elim (Bool-cases (ltb_ℤ before.max_traffic (now -ℤ link.traffic))) [
        | inl more ↦
            let q : best ≡ record { link = some i; max_traffic = now -ℤ link.traffic } =
              rw more at h in
            inl (ap (λ b. b.link) q, now, e, ap (λ b. b.max_traffic) q)
        | inr less ↦ inr (rw less at h)
      ]
  pass_on i link ((j, other) ∷ links) now before best e (inl here) = inr (inl here)
  pass_on i link ((j, other) ∷ links) now before best e (inr h) =
      elim (pass_on i link links now before best e h) [
        | inl mine ↦ inl mine
        | inr later ↦ inr (inr later)
      ]

  reached :
      (links : List (ℕ × AgnosticLink)) (best : Busiest) (store : List AgnosticLink)
      (r : Busiest × List AgnosticLink)
      → most_trafficked traffic links best store ≡ ok r
      → IsReached best r.0 links
  unfolding most_trafficked
  reached [] best store r h = ap (λ q. q.0) (sym (ok-injective h))
  reached ((i, link) ∷ links) best store r h =
      let (now, e, later) = round_of i link links best store r h in
      pass_on i link links now best r.0 e (reached links _ _ r later)

  -- Where no counter fails to be read: no link has had more traffic since the last run than the
  -- chosen bound, and the bound is that of the chosen link, or no link was chosen.
  pub busiest_chosen :
      (links : List (ℕ × AgnosticLink)) (store : List AgnosticLink)
      (r : Busiest × List AgnosticLink)
      → most_trafficked traffic links no_link store ≡ ok r
      → All (IsAtMost r.0.max_traffic) links × IsReached no_link r.0 links
  busiest_chosen links store r h =
      ((grows links no_link store r h).1, reached links no_link store r h)
