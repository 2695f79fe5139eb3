-- ===== src/CpuLimits.antt =====
-- mininet/node.py, `CPULimitedHost`: the period and the quota by which a host's share of the CPU is
-- set. The arithmetic is that of the interpreter's floats.
pub mod Quotas
use faultynet.Shared.{
  String, Bool, not, ◌&&◌, ◌||◌, Option, none, some, ℤ, pos, negsuc, ltb_ℤ, Result, ok, err,
  value_error, zero_division, exception, ◌>>=◌, str_eq, if◌then◌else◌,
}
use faultynet.Values.{Floats, or_raise}

-- Names of the two parameters of the control group, and their values.
pub record Limits : Type 0 where
  pub period_name : String
  pub quota_name : String
  pub period : ℤ
  pub quota : ℤ

-- Unlimited where the quota is negative
abbrev pub cfs_limits : ℤ → ℤ → Limits
cfs_limits period quota = record {
  period_name = "cfs_period_us";
  quota_name = "cfs_quota_us";
  period = period;
  quota = if ltb_ℤ quota (pos 0) then negsuc 0 else quota;
}

module _ (F : Floats) where
  -- `int( x )`, and a division
  abbrev pub int_of : F.Float → Result ℤ
  int_of x = or_raise (F.trunc x) (err value_error)

  abbrev pub divide : F.Float → F.Float → Result F.Float
  divide x y = or_raise (F.div x y) (err zero_division)

  abbrev pub is_positive : F.Float → Bool
  is_positive f = F.lt (F.of_int (pos 0)) f

  -- `rtInfo`
  unfoldable pub rt_info : ℤ → F.Float → Result Limits
  rt_info period_us f = int_of (F.mul (F.of_int period_us) f) >>= λ quota. ok (record {
    period_name = "rt_period_us";
    quota_name = "rt_runtime_us";
    period = period_us;
    quota = quota;
  })

  -- `int( quota / f / numCores() )` for the quota 1000
  abbrev pub longer_period : ℤ → F.Float → Result ℤ
  longer_period cores f =
      divide (F.of_int (pos 1000)) f >>= λ x. divide x (F.of_int cores) >>= int_of

  -- `cfsInfo`, where `cores` is what `numCores` returns
  unfoldable pub cfs_info : ℤ → ℤ → F.Float → Result Limits
  cfs_info cores period_us f =
      int_of (F.mul (F.mul (F.of_int period_us) f) (F.of_int cores)) >>= λ quota.
      let raised = longer_period cores f >>= λ period. ok (cfs_limits period (pos 1000)) in
      if is_positive f && ltb_ℤ quota (pos 1000) then raised else ok (cfs_limits period_us quota)

  -- `setCPUFrac` up to the commands: none where the scheduler is neither of the two. `nonzero` is the
  -- truth value of the fraction.
  unfoldable pub set_cpu_frac : ℤ → ℤ → String → Bool → F.Float → Result (Option Limits)
  unfolding rt_info cfs_info
  set_cpu_frac cores period_us sched nonzero f =
      let rt = rt_info period_us f >>= λ l. ok (some l) in
      let cfs = cfs_info cores period_us f >>= λ l. ok (some l) in
      if str_eq sched "rt"
      then (if not nonzero || F.lt f (F.of_int (pos 0)) then err exception else rt)
      else if str_eq sched "cfs"
      then cfs
      else ok none
