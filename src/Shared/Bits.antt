-- ===== src/Shared/Bits.antt =====
-- Python's `&`, `|` and `^` of numbers that are not negative, at variables.
use Prim.Native.Nat.{
  ℕ, zero, suc, ◌+◌, ◌-◌, ◌*◌, ◌/◌, ◌%◌, ◌^◌, ◌≤◌, ◌<◌, min, max, differ, digits, bit_and, bit_or,
  bit_xor, bit_and-bitwise, bit_or-bitwise, bit_xor-bitwise,
}
use faultynet.Shared.Tests.{Bool-cases, ◌==◌, ==_iff}
use mathlib.Core.Logic.{inl, inr}
use mathlib.Core.Path.{◌≡◌, refl, ap, sym, ◌∙◌}
use native.Mathlib.Nat.{pow-succ', div-div-eq-div-mul}
use native.Mathlib.Omega.{arith}

-- The lowest digit of an operation on digits, for a result `z` that is read digit by digit too.
module _ (z : ℕ → ℕ) (f : ℕ → ℕ → ℕ) (reads : (b : ℕ) → z b ≡ z (b / 2) * 2 + f 0 (b % 2)) where
  spare_digit : (fuel a b : ℕ) → a ≤ fuel → digits z f (suc fuel) a b ≡ digits z f fuel a b
  spare_digit zero zero b h = refl
  spare_digit zero (suc a) b h = absurd (omega arith)
  spare_digit (suc fuel) zero b h = refl
  spare_digit (suc fuel) (suc a) b h =
      ap (λ x. x * 2 + f (suc a % 2) (b % 2)) (spare_digit fuel (suc a / 2) (b / 2) (omega arith))

  own_fuel : (fuel a b : ℕ) → a ≤ fuel → digits z f fuel a b ≡ digits z f a a b
  own_fuel zero zero b h = refl
  own_fuel zero (suc a) b h = absurd (omega arith)
  own_fuel (suc fuel) a b h = elim (Bool-cases (a == suc fuel)) [
    | inl e ↦ ap (λ n. digits z f n a b) (sym ((==_iff a (suc fuel)).0 e))
    | inr e ↦
        let less : a ≤ fuel = ground arith in spare_digit fuel a b less ∙ own_fuel fuel a b less
  ]

  digits_step :
      (a b : ℕ) → digits z f a a b ≡ digits z f (a / 2) (a / 2) (b / 2) * 2 + f (a % 2) (b % 2)
  digits_step zero b = reads b
  digits_step (suc a) b =
      ap (λ x. x * 2 + f (suc a % 2) (b % 2)) (own_fuel a (suc a / 2) (b / 2) (omega arith))

pub and_step : (a b : ℕ) → bit_and a b ≡ bit_and (a / 2) (b / 2) * 2 + min (a % 2) (b % 2)
and_step a b =
    bit_and-bitwise a b
    ∙ digits_step (λ b. zero) min (λ b. omega arith) a b
    ∙ ap (λ x. x * 2 + min (a % 2) (b % 2)) (sym (bit_and-bitwise (a / 2) (b / 2)))

or_step : (a b : ℕ) → bit_or a b ≡ bit_or (a / 2) (b / 2) * 2 + max (a % 2) (b % 2)
or_step a b =
    bit_or-bitwise a b
    ∙ digits_step (λ b. b) max (λ b. omega arith) a b
    ∙ ap (λ x. x * 2 + max (a % 2) (b % 2)) (sym (bit_or-bitwise (a / 2) (b / 2)))

xor_step : (a b : ℕ) → bit_xor a b ≡ bit_xor (a / 2) (b / 2) * 2 + differ (a % 2) (b % 2)
xor_step a b =
    bit_xor-bitwise a b
    ∙ digits_step (λ b. b) differ (λ b. omega arith) a b
    ∙ ap (λ x. x * 2 + differ (a % 2) (b % 2)) (sym (bit_xor-bitwise (a / 2) (b / 2)))

and-le_fuel : (n a b : ℕ) → a ≤ n → bit_and a b ≤ b
and-le_fuel zero zero b h = omega (arith, bit_and-bitwise 0 b)
and-le_fuel zero (suc a) b h = absurd (omega arith)
and-le_fuel (suc n) zero b h = omega (arith, bit_and-bitwise 0 b)
and-le_fuel (suc n) (suc a) b h =
    omega (arith, and_step (suc a) b, and-le_fuel n (suc a / 2) (b / 2) (omega arith))

pub bit_and-le : (a b : ℕ) → bit_and a b ≤ b
bit_and-le a b = and-le_fuel a a b (omega arith)

two_pow : (k : ℕ) → 2 ^ suc k ≡ 2 * 2 ^ k
two_pow k = pow-succ' 2 k

pub pow_pos : (k : ℕ) → 1 ≤ 2 ^ k
pow_pos zero = omega arith
pow_pos (suc k) = omega (arith, two_pow k, pow_pos k)

differ_one : (d : ℕ) → d < 2 → differ 1 d ≡ 1 - d
differ_one zero h = refl
differ_one (suc zero) h = refl
differ_one (suc (suc d)) h = absurd (omega arith)

or-zero_fuel : (n a : ℕ) → a ≤ n → bit_or a 0 ≡ a
or-zero_fuel zero zero h = refl
or-zero_fuel zero (suc a) h = absurd (omega arith)
or-zero_fuel (suc n) zero h = refl
or-zero_fuel (suc n) (suc a) h =
    omega (arith, or_step (suc a) 0, or-zero_fuel n (suc a / 2) (omega arith))

or_double : (m n b : ℕ) → n ≡ m + m → bit_or m (b / 2) ≡ m + b / 2 → bit_or n b ≡ n + b
or_double m n b e h =
    let half : n / 2 ≡ m = omega arith in
    omega (arith, or_step n b, ap (λ x. bit_or x (b / 2)) half)

-- The digits of the second number stand below those of the first.
pub bit_or-shift : (k a b : ℕ) → b < 2 ^ k → bit_or (a * 2 ^ k) b ≡ a * 2 ^ k + b
bit_or-shift zero a b h =
    let none_left : b ≡ 0 = omega arith in
    let same : a * 1 ≡ a = omega arith in
    rw (none_left, same, or-zero_fuel a a (omega arith)) (omega arith)
bit_or-shift (suc k) a b h =
    or_double (a * 2 ^ k) (a * 2 ^ suc k) b (ap (λ p. a * p) (two_pow k) ∙ omega arith)
      (bit_or-shift k a (b / 2) (omega (arith, two_pow k)))

xor_double : (m n x : ℕ) → n ≡ 2 * m + 1 → bit_xor m (x / 2) + x / 2 ≡ m → bit_xor n x + x ≡ n
xor_double m n x e h =
    let half : n / 2 ≡ m = omega arith in
    let odd : n % 2 ≡ 1 = omega arith in
    omega (
      arith,
      xor_step n x,
      ap (λ y. bit_xor y (x / 2)) half,
      ap (λ y. differ y (x % 2)) odd,
      differ_one (x % 2) (omega arith),
    )

-- The complement.
pub bit_xor-ones : (k x : ℕ) → x < 2 ^ k → bit_xor (2 ^ k - 1) x + x ≡ 2 ^ k - 1
bit_xor-ones zero x h = let none_left : x ≡ 0 = omega arith in rw none_left refl
bit_xor-ones (suc k) x h =
    xor_double (2 ^ k - 1) (2 ^ suc k - 1) x (omega (arith, two_pow k, pow_pos k))
      (bit_xor-ones k (x / 2) (omega (arith, two_pow k)))

and_half : (a b : ℕ) → bit_and a b / 2 ≡ bit_and (a / 2) (b / 2)
and_half a b = omega (arith, and_step a b)

or_half : (a b : ℕ) → bit_or a b / 2 ≡ bit_or (a / 2) (b / 2)
or_half a b = omega (arith, or_step a b)

-- One digit of the result.
pub bit_and-parity : (a b : ℕ) → bit_and a b % 2 ≡ min (a % 2) (b % 2)
bit_and-parity a b = omega (arith, and_step a b)

pub bit_or-parity : (a b : ℕ) → bit_or a b % 2 ≡ max (a % 2) (b % 2)
bit_or-parity a b = omega (arith, or_step a b)

by_one : (a : ℕ) → a / 1 ≡ a
by_one a = omega arith

div_pow : (k a : ℕ) → a / 2 ^ suc k ≡ a / 2 / 2 ^ k
div_pow k a = ap (λ p. a / p) (two_pow k) ∙ sym (div-div-eq-div-mul a 2 (2 ^ k))

-- An operation on the digits above the lowest ones.
pub div-bit_and : (k a b : ℕ) → bit_and a b / 2 ^ k ≡ bit_and (a / 2 ^ k) (b / 2 ^ k)
div-bit_and zero a b =
    omega (
      arith,
      by_one (bit_and a b),
      ap (λ x. bit_and x (b / 1)) (by_one a),
      ap (bit_and a) (by_one b),
    )
div-bit_and (suc k) a b =
    div_pow k (bit_and a b)
    ∙ ap (λ x. x / 2 ^ k) (and_half a b)
    ∙ div-bit_and k (a / 2) (b / 2)
    ∙ ap (λ x. bit_and x (b / 2 / 2 ^ k)) (sym (div_pow k a))
    ∙ ap (bit_and (a / 2 ^ suc k)) (sym (div_pow k b))

pub div-bit_or : (k a b : ℕ) → bit_or a b / 2 ^ k ≡ bit_or (a / 2 ^ k) (b / 2 ^ k)
div-bit_or zero a b =
    omega
      (arith, by_one (bit_or a b), ap (λ x. bit_or x (b / 1)) (by_one a), ap (bit_or a) (by_one b))
div-bit_or (suc k) a b =
    div_pow k (bit_or a b)
    ∙ ap (λ x. x / 2 ^ k) (or_half a b)
    ∙ div-bit_or k (a / 2) (b / 2)
    ∙ ap (λ x. bit_or x (b / 2 / 2 ^ k)) (sym (div_pow k a))
    ∙ ap (bit_or (a / 2 ^ suc k)) (sym (div_pow k b))

pub bit_and-zero : (a : ℕ) → bit_and a 0 ≡ 0
bit_and-zero a = omega (arith, bit_and-le a 0)

pub zero-bit_and : (b : ℕ) → bit_and 0 b ≡ 0
zero-bit_and b = bit_and-bitwise 0 b

and_15 : (x : ℕ) → bit_and x 15 ≡ x % 16
and_15 x = omega (
  arith,
  and_step x 15,
  and_step (x / 2) 7,
  and_step (x / 2 / 2) 3,
  and_step (x / 2 / 2 / 2) 1,
  bit_and-zero (x / 2 / 2 / 2 / 2),
)

-- The mask of a byte.
pub bit_and-byte : (x : ℕ) → bit_and x 255 ≡ x % 256
bit_and-byte x = omega (
  arith,
  and_step x 255,
  and_step (x / 2) 127,
  and_step (x / 2 / 2) 63,
  and_step (x / 2 / 2 / 2) 31,
  and_15 (x / 2 / 2 / 2 / 2),
)

and_15_left : (x : ℕ) → bit_and 15 x ≡ x % 16
and_15_left x = omega (
  arith,
  and_step 15 x,
  and_step 7 (x / 2),
  and_step 3 (x / 2 / 2),
  and_step 1 (x / 2 / 2 / 2),
  zero-bit_and (x / 2 / 2 / 2 / 2),
)

pub byte-bit_and : (x : ℕ) → bit_and 255 x ≡ x % 256
byte-bit_and x = omega (
  arith,
  and_step 255 x,
  and_step 127 (x / 2),
  and_step 63 (x / 2 / 2),
  and_step 31 (x / 2 / 2 / 2),
  and_15_left (x / 2 / 2 / 2 / 2),
)
