-- ===== src/CpuLimits/Quotas.antt =====
-- The quotas that `cfsInfo` of mininet/node.py returns.
use faultynet.Shared.{
  ℕ, ◌≤◌, ◌≡◌, ◌⊎◌, inl, inr, refl, Bool-cases, true, false, ℤ, pos, negsuc, ltb_ℤ, Result-cases,
  Exn, ok, err, arith,
}
use faultynet.Values.{Floats}
use faultynet.CpuLimits.{Limits, int_of, is_positive, cfs_limits, longer_period, cfs_info}

limits_of :
    (period : ℤ) (quota : ℤ)
    → ltb_ℤ quota (pos 1000) ≡ false
    → (n : ℕ) × ((cfs_limits period quota).quota ≡ pos n) × (1000 ≤ n)
limits_of period (pos n) h = (n, ground (arith, h), ground (arith, h))
limits_of period (negsuc n) h = absurd (ground (arith, h))

-- A positive share, if the arithmetic on it raises nothing, gets a quota of at least the 1000
-- microseconds that the scheduler wants, and never the -1 that stands for no limit; otherwise
-- `cfsInfo` raises too.
cfs_quota :
    (F : Floats) (cores period_us : ℤ) (f : F.Float)
    → is_positive F f ≡ true
    → ((l : Limits) × (cfs_info F cores period_us f ≡ ok l)
        × ((n : ℕ) × (l.quota ≡ pos n) × (1000 ≤ n)))
      ⊎ ((e : Exn) × (cfs_info F cores period_us f ≡ err e))
unfolding cfs_info
cfs_quota F cores period_us f h =
    elim (Result-cases (int_of F (F.mul (F.mul (F.of_int period_us) f) (F.of_int cores)))) [
      | inr (e, bad) ↦ inr (e, rw bad refl)
      | inl (quota, got) ↦ elim (Bool-cases (ltb_ℤ quota (pos 1000))) [
        | inr enough ↦
            inl (
              cfs_limits period_us quota,
              rw (got, h, enough) refl,
              limits_of period_us quota enough,
            )
        | inl small ↦ elim (Result-cases (longer_period F cores f)) [
          | inr (e, bad) ↦ inr (e, rw (got, h, small, bad) refl)
          | inl (period, ok_period) ↦ inl (
            cfs_limits period (pos 1000),
            rw (got, h, small, ok_period) refl,
            (1000, refl, omega arith),
          )
        ]
      ]
    ]
