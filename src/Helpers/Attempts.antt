-- ===== src/Helpers/Attempts.antt =====
-- How many calls `retry` makes, and when it exits.
use faultynet.Shared.{
  ℕ, zero, suc, ◌+◌, ◌≤◌, ◌<◌, ◌≡◌, ◌↔◌, Bool, true, false, leb, arith, Bool-cases, inl, inr, ◌==◌,
  ==_iff, leb→le, ap, sym, ◌∙◌,
}
use faultynet.Helpers.{attempts, retry}

attempts-le :
    (fn : ℕ → Bool) (left tries : ℕ)
    → (tries ≤ attempts fn left tries) × (attempts fn left tries ≤ tries + left)
unfolding attempts
attempts-le fn zero tries = omega arith
attempts-le fn (suc left) tries = ground (arith, attempts-le fn left (suc tries))

-- Each call before the last one failed.
attempts_failed :
    (fn : ℕ → Bool) (left tries k : ℕ) → tries ≤ k → k < attempts fn left tries → fn k ≡ false
unfolding attempts
attempts_failed fn zero tries k hk h = absurd (omega (arith, hk, h))
attempts_failed fn (suc left) tries k hk h = elim (Bool-cases (fn tries)) [
  | inl e ↦ absurd (omega (arith, hk, rw e at h))
  | inr e ↦ elim (Bool-cases (tries == k)) [
    | inl same ↦ ap fn (sym ((==_iff tries k).0 same)) ∙ e
    | inr other ↦
        let later : suc tries ≤ k = ground (arith, other, hk) in
        attempts_failed fn left (suc tries) k later (rw e at h)
  ]
]

attempts_stop :
    (fn : ℕ → Bool) (left tries : ℕ)
    → attempts fn left tries < tries + left
    → fn (attempts fn left tries) ≡ true
unfolding attempts
attempts_stop fn zero tries h = absurd (omega (arith, h))
attempts_stop fn (suc left) tries h = ground (arith, attempts_stop fn left (suc tries))

-- The function is called at least once and at most once more than there are retries, and every call
-- but the last has failed. The program exits exactly where the first calls, one for each retry,
-- have all failed; whether the call after them succeeds makes no difference.
retry_exits :
    (retries : ℕ) (fn : ℕ → Bool)
    → ((retry retries fn).calls ≤ retries + 1)
      × ((k : ℕ) → k + 1 < (retry retries fn).calls → fn k ≡ false)
      × (((retry retries fn).gave_up ≡ true) ↔ ((k : ℕ) → k < retries → fn k ≡ false))
unfolding retry
retry_exits retries fn =
    let total = attempts-le fn retries 0 in
    let stop = attempts_stop fn retries 0 in
    (
      omega (arith, total),
      λ k h. attempts_failed fn retries 0 k (omega arith) (omega (arith, h)),
      (
        λ e k h.
            attempts_failed fn retries 0 k (omega arith) (omega (arith, h, leb→le retries _ e)),
        λ all_fail. elim (Bool-cases (leb retries (attempts fn retries 0))) [
          | inl e ↦ e
          | inr e ↦
              let early : attempts fn retries 0 < retries = ground (arith, e) in
              let wrong = sym (stop (omega (arith, early))) ∙ all_fail _ early in cc
        ],
      ),
    )
