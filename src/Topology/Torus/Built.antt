-- ===== src/Topology/Torus/Built.antt =====
-- Every torus of a legal size is built (mininet/topolib.py).
use faultynet.Shared.{
  ℕ, zero, suc, ◌+◌, ◌%◌, ◌≤◌, ◌<◌, ◌==◌, ◌≡◌, ◌⊎◌, inl, inr, refl, ap, ◌∙◌, arith, ok, err,
  exception, [], ◌∷◌, ltb, Bool-cases, true, false, ◌||◌, ◌>>=◌, none,
}
use native.Mathlib.Nat.{mod-lt}
use mathlib.Core.Path.{subst}
use faultynet.Topology.{Topo, add_host, add_switch}
use faultynet.Topology.Known.{
  IsKnown, IsGrown, add_host-IsKnown, add_host-IsGrown, add_switch-IsKnown, add_switch-IsGrown,
  join_known,
}
use faultynet.Topology.Trees.{join}
use faultynet.Topology.Torus.{
  location, switch_name, gen_host_name, dpid, hex_text, torus_hosts, torus_switch, torus_row,
  torus_rows, connect_row, connect_rows, torus,
}

hosts_added :
    (n i j k m : ℕ) (t : Topo)
    → IsKnown (switch_name i j) t
    → (t' : Topo) × (torus_hosts n i j k m t ≡ ok t') × IsGrown t t'
unfolding torus_hosts
hosts_added n i j k zero t known = (t, refl, λ s h. h)
hosts_added n i j k (suc m) t known =
    let host = gen_host_name n (location i j) (k + 1) in
    let grown = add_host-IsGrown host [] t in
    let (t1, e1, g1, _) =
      join_known host (switch_name i j) (add_host host [] t) (add_host-IsKnown host [] t)
        (grown (switch_name i j) known) in
    let (t2, e2, g2) =
      hosts_added n i j (suc k) m t1 (g1 (switch_name i j) (grown (switch_name i j) known)) in
    (t2, ap (λ r. r >>= torus_hosts n i j (suc k) m) e1 ∙ e2, λ s h. g2 s (g1 s (grown s h)))

switch_added :
    (n i j : ℕ) (t : Topo)
    → (t' : Topo) × (torus_switch n i j t ≡ ok t') × IsGrown t t' × IsKnown (switch_name i j) t'
unfolding torus_switch
switch_added n i j t =
    let opts = ("dpid", hex_text (dpid i j)) ∷ [] in
    let known = add_switch-IsKnown (switch_name i j) opts t in
    let (t1, e1, g1) = hosts_added n i j 0 n (add_switch (switch_name i j) opts t) known in
    (
      t1,
      e1,
      λ s h. g1 s (add_switch-IsGrown (switch_name i j) opts t s h),
      g1 (switch_name i j) known,
    )

-- The switches of a row from the j-th on are known.
abbrev KnowsRow : ℕ → ℕ → ℕ → Topo → Type 0
KnowsRow i j m t = (b : ℕ) → j ≤ b → b < j + m → IsKnown (switch_name i b) t

row_added :
    (n i j m : ℕ) (t : Topo)
    → (t' : Topo) × (torus_row n i j m t ≡ ok t') × IsGrown t t' × KnowsRow i j m t'
unfolding torus_row
row_added n i j zero t = (t, refl, λ s h. h, λ b le lt. absurd (omega (arith, le, lt)))
row_added n i j (suc m) t =
    let (t1, e1, g1, k1) = switch_added n i j t in
    let (t2, e2, g2, k2) = row_added n i (suc j) m t1 in
    (
      t2,
      ap (λ r. r >>= torus_row n i (suc j) m) e1 ∙ e2,
      λ s h. g2 s (g1 s h),
      λ b le lt. elim (Bool-cases (b == j)) [
        | inl here ↦
            let same : j ≡ b = ground (arith, here) in
            g2 (switch_name i b) (subst (λ c. IsKnown (switch_name i c) t1) same k1)
        | inr later ↦ k2 b (ground (arith, later, le)) (omega (arith, lt))
      ],
    )

abbrev KnowsRows : ℕ → ℕ → ℕ → Topo → Type 0
KnowsRows y i m t = (a b : ℕ) → i ≤ a → a < i + m → b < y → IsKnown (switch_name a b) t

rows_added :
    (n y i m : ℕ) (t : Topo)
    → (t' : Topo) × (torus_rows n y i m t ≡ ok t') × KnowsRows y i m t' × IsGrown t t'
unfolding torus_rows
rows_added n y i zero t = (t, refl, λ a b le lt lb. absurd (omega (arith, le, lt)), λ s h. h)
rows_added n y i (suc m) t =
    let (t1, e1, g1, k1) = row_added n i 0 y t in
    let (t2, e2, k2, g2) = rows_added n y (suc i) m t1 in
    (
      t2,
      ap (λ r. r >>= torus_rows n y (suc i) m) e1 ∙ e2,
      λ a b le lt lb. elim (Bool-cases (a == i)) [
        | inl here ↦
            let same : i ≡ a = ground (arith, here) in
            g2 (switch_name a b) (
              subst (λ c. IsKnown (switch_name c b) t1) same
                (k1 b (omega arith) (omega (arith, lb))))
        | inr later ↦ k2 a b (ground (arith, later, le)) (omega (arith, lt)) lb
      ],
      λ s h. g2 s (g1 s h),
    )

module _ (x y : ℕ) (wide : 0 < x) (high : 0 < y) where
  -- All switches of the torus.
  abbrev KnowsAll : Topo → Type 0
  KnowsAll t = (a b : ℕ) → a < x → b < y → IsKnown (switch_name a b) t

  row_connected :
      (i j m : ℕ) (t : Topo)
      → KnowsAll t
      → i < x
      → j + m ≤ y
      → (t' : Topo) × (connect_row x y i j m t ≡ ok t') × IsGrown t t'
  unfolding connect_row
  row_connected i j zero t all hi hj = (t, refl, λ s h. h)
  row_connected i j (suc m) t all hi hj =
      let here : j < y = omega (arith, hj) in
      let (t1, e1, g1, _) =
        join_known (switch_name i j) (switch_name i ((j + 1) % y)) t (all i j hi here)
          (all i ((j + 1) % y) hi (mod-lt (j + 1) high)) in
      let (t2, e2, g2, _) =
        join_known (switch_name i j) (switch_name ((i + 1) % x) j) t1 (g1 _ (all i j hi here))
          (g1 _ (all ((i + 1) % x) j (mod-lt (i + 1) wide) here)) in
      let (t3, e3, g3) =
        row_connected i (suc j) m t2 (λ a b ha hb. g2 _ (g1 _ (all a b ha hb))) hi
          (omega (arith, hj)) in
      (
        t3,
        ap
              (λ r.
                r
                >>= join (switch_name i j) (switch_name ((i + 1) % x) j) none none
                >>= connect_row x y i (suc j) m)
              e1
            ∙ ap (λ r. r >>= connect_row x y i (suc j) m) e2
            ∙ e3,
        λ s h. g3 s (g2 s (g1 s h)),
      )

  rows_connected :
      (i m : ℕ) (t : Topo)
      → KnowsAll t
      → i + m ≤ x
      → (t' : Topo) × (connect_rows x y i m t ≡ ok t') × IsGrown t t'
  unfolding connect_rows
  rows_connected i zero t all hi = (t, refl, λ s h. h)
  rows_connected i (suc m) t all hi =
      let (t1, e1, g1) = row_connected i 0 y t all (omega (arith, hi)) (omega arith) in
      let (t2, e2, g2) =
        rows_connected (suc i) m t1 (λ a b ha hb. g1 _ (all a b ha hb)) (omega (arith, hi)) in
      (t2, ap (λ r. r >>= connect_rows x y (suc i) m) e1 ∙ e2, λ s h. g2 s (g1 s h))

-- A torus of at least three rows and columns is built, whatever the number of hosts at each switch:
-- every link finds its switches, the last row and column their first ones, and every switch is in
-- the topology. A smaller one is refused with an Exception.
torus_built :
    (x y n : ℕ) (t : Topo)
    → (3 ≤ x
        → 3 ≤ y
        → (t' : Topo) × (torus x y n t ≡ ok t')
          × ((a b : ℕ) → a < x → b < y → IsKnown (switch_name a b) t'))
      × ((x < 3) ⊎ (y < 3) → torus x y n t ≡ err exception)
unfolding torus
torus_built x y n t = (
  λ wide high.
      let (t1, e1, k1, g1) = rows_added n y 0 x t in
      let (t2, e2, g2) =
        rows_connected x y (omega (arith, wide)) (omega (arith, high)) 0 x t1
          (λ a b ha hb. k1 a b (omega arith) (omega (arith, ha)) hb) (omega arith) in
      let legal : (ltb x 3 || ltb y 3) ≡ false = ground (arith, wide, high) in
      (
        t2,
        rw legal (ap (λ r. r >>= connect_rows x y 0 x) e1 ∙ e2),
        λ a b ha hb. g2 (switch_name a b) (k1 a b (omega arith) (omega (arith, ha)) hb),
      ),
  λ small. let illegal : (ltb x 3 || ltb y 3) ≡ true = ground (arith, small) in rw illegal refl,
)
