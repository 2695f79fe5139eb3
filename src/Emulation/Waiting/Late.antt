-- ===== src/Emulation/Waiting/Late.antt =====
-- When `waitConnected` of mininet/net.py answers true.
use faultynet.Shared.{
  ℕ, zero, suc, ◌+◌, ◌-◌, ◌/◌, ◌≤◌, ◌<◌, ◌≡◌, ◌⊎◌, refl, ap, ◌∙◌, Bool, true, false, inl, inr, none,
  some, List, [], ◌∷◌, length, get_elem?, ltb, arith,
}
use faultynet.Emulation.Waiting.{remove_first, sweep, last_sweep, is_none, wait_connected}

sweep_none :
    (connected : ℕ → Bool) (copy remaining : List ℕ)
    → ((s : ℕ) → connected s ≡ false)
    → sweep connected copy remaining ≡ remaining
unfolding sweep
sweep_none connected [] remaining h = refl
sweep_none connected (s ∷ copy) remaining h = rw (h s) (sweep_none connected copy remaining h)

remove_first-head : (s : ℕ) (l : List ℕ) → remove_first s (s ∷ l) ≡ l
unfolding remove_first
remove_first-head s l = ground arith

sweep_all :
    (connected : ℕ → Bool) (l : List ℕ) → ((s : ℕ) → connected s ≡ true) → sweep connected l l ≡ []
unfolding sweep
sweep_all connected [] h = refl
sweep_all connected (s ∷ l) h =
    rw (h s) (ap (sweep connected l) (remove_first-head s l) ∙ sweep_all connected l h)

length-remove_first :
    (i s : ℕ) (l : List ℕ) → get_elem? l i ≡ some s → length (remove_first s l) + 1 ≡ length l
unfolding remove_first
length-remove_first i s [] h = absurd cc
length-remove_first zero s (x ∷ l) h = ground (arith, h)
length-remove_first (suc i) s (x ∷ l) h = ground (arith, length-remove_first i s l h)

elem-length :
    (i : ℕ) (l : List ℕ)
    → ((get_elem? l i ≡ none) × (length l ≤ i))
      ⊎ ((s : ℕ) × (get_elem? l i ≡ some s) × (i < length l))
elem-length i [] = inl (refl, omega arith)
elem-length zero (x ∷ l) = inr (x, refl, omega arith)
elem-length (suc i) (x ∷ l) = elim (elem-length i l) [
  | inl (e, h) ↦ inl (e, omega (arith, h))
  | inr (s, e, h) ↦ inr (s, e, omega (arith, h))
]

-- One round of the pass over the list that it removes from.
last_round :
    (fuel i s : ℕ) (late : ℕ → Bool) (l : List ℕ)
    → get_elem? l i ≡ some s
    → late s ≡ true
    → last_sweep (suc fuel) late i l ≡ last_sweep fuel late (i + 1) (remove_first s l)
unfolding last_sweep
last_round fuel i s late l e h = ground (arith, e, h)

last_end :
    (fuel i : ℕ) (late : ℕ → Bool) (l : List ℕ)
    → get_elem? l i ≡ none
    → last_sweep fuel late i l ≡ l
unfolding last_sweep
last_end zero i late l e = refl
last_end (suc fuel) i late l e = ground (arith, e)

length-last_sweep :
    (fuel i : ℕ) (late : ℕ → Bool) (l : List ℕ)
    → ((s : ℕ) → late s ≡ true)
    → i ≤ length l
    → length l ≤ i + fuel
    → length (last_sweep fuel late i l) ≡ i + (length l - i) / 2
unfolding last_sweep
length-last_sweep zero i late l h le enough = omega (arith, le, enough)
length-last_sweep (suc fuel) i late l h le enough = elim (elem-length i l) [
  | inl (e, over) ↦ ap length (last_end (suc fuel) i late l e) ∙ omega (arith, over, le)
  | inr (s, e, lt) ↦
      let shorter = length-remove_first i s l e in
      ap length (last_round fuel i s late l e (h s))
      ∙ elim (elem-length (i + 1) (remove_first s l)) [
        | inl (none_left, over) ↦
            ap length (last_end fuel (i + 1) late (remove_first s l) none_left)
            ∙ omega (arith, over, shorter, lt)
        | inr (_, _, more) ↦
            length-last_sweep fuel (i + 1) late (remove_first s l) h (omega (arith, more))
              (omega (arith, shorter, enough))
            ∙ omega (arith, shorter, more)
      ]
]

is_none-ltb : (l : List ℕ) → is_none l ≡ ltb (length l) 1
is_none-ltb [] = refl
is_none-ltb (s ∷ l) = ground arith

-- Switches that connect only after the last look before the timeout: though every one of them answers
-- that it is connected, `waitConnected` returns true only where there is at most one, since the
-- pass over the list skips the switch behind each one that it removes.
pub wait_connected_skips :
    (connected : ℕ → ℕ → Bool) (late expired : ℕ → Bool) (fuel n : ℕ) (switches : List ℕ)
    → ((s : ℕ) → connected n s ≡ false)
    → ((s : ℕ) → late s ≡ true)
    → expired n ≡ true
    → wait_connected connected late expired (suc fuel) n switches ≡ some (ltb (length switches) 2)
unfolding wait_connected
wait_connected_skips connected late expired fuel n switches off on up =
    let left = length-last_sweep (length switches) 0 late switches on (omega arith) (omega arith) in
    rw (sweep_none (connected n) switches switches off) (
      ground (
        arith,
        up,
        is_none-ltb switches,
        is_none-ltb (last_sweep (length switches) late 0 switches),
        left,
      ))

-- Where no look before it is the last one, `waitConnected` returns true at the latest when it finds all
-- of the switches connected, whichever it has found connected before.
wait_connected_returns :
    (connected : ℕ → ℕ → Bool) (late expired : ℕ → Bool) (fuel m n : ℕ) (switches : List ℕ)
    → m < fuel
    → ((k : ℕ) → k < m → expired (n + k) ≡ false)
    → ((s : ℕ) → connected (n + m) s ≡ true)
    → wait_connected connected late expired fuel n switches ≡ some true
unfolding wait_connected
wait_connected_returns connected late expired zero m n switches h before all =
    absurd (omega (arith, h))
wait_connected_returns connected late expired (suc fuel) zero n switches h before all =
    let found : (s : ℕ) → connected n s ≡ true =
      λ s. ap (λ k. connected k s) (omega arith) ∙ all s in
    rw (sweep_all (connected n) switches found) refl
wait_connected_returns connected late expired (suc fuel) (suc m) n switches h before all =
    let left = sweep (connected n) switches switches in
    let now : expired n ≡ false = ap expired (omega arith) ∙ before 0 (omega arith) in
    let next =
      wait_connected_returns connected late expired fuel m (n + 1) left (omega (arith, h))
        (λ k lt. ap expired (omega arith) ∙ before (k + 1) (omega (arith, lt)))
        (λ s. ap (λ k. connected k s) (omega arith) ∙ all s) in
    ground (arith, now, next)
