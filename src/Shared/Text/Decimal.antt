-- ===== src/Shared/Text/Decimal.antt =====
-- A decimal numeral that `str` prints is read back by `int`.
use Prim.Native.Nat.{ℕ, zero, suc, ◌+◌, ◌*◌, ◌/◌, ◌%◌, ◌<◌}
use Prim.Native.Char.{code}
use Prim.Native.String.{String}
use mathlib.Core.Path.{◌≡◌, refl, ◌∙◌, ap}
use mathlib.Core.Logic.{inl, inr}
use mathlib.Core.Bool.{false}
use mathlib.Core.Option.{some}
use native.Mathlib.Omega.{arith}
use faultynet.Shared.Tests.{ltb, Bool-cases, if◌then◌else◌}
use faultynet.Shared.Int.{ℤ, pos, negsuc}
use faultynet.Shared.Text.Split.{Without}
use faultynet.Shared.Text.{
  digit_char, digits_of, show_ℕ, show_ℤ, more_digits, natural_text, positive, negate, int_of_text,
}

-- The digits of `n` behind those of `acc`.
abbrev shift : ℕ → ℕ → ℕ → ℕ
shift zero n acc = acc
shift (suc f) n acc =
    let more = shift f (n / 10) acc * 10 + n % 10 in if ltb n 10 then acc * 10 + n else more

shift_zero : (f n : ℕ) → n < f → shift f n 0 ≡ n
shift_zero zero n h = absurd (omega arith)
shift_zero (suc f) n h = ground (arith, shift_zero f (n / 10))

-- The ten digits, each read as itself.
digit_code : (d : ℕ) → d < 10 → code (digit_char d) ≡ 48 + d
unfolding digit_char
digit_code zero h = refl
digit_code (suc zero) h = refl
digit_code (suc (suc zero)) h = refl
digit_code (suc (suc (suc zero))) h = refl
digit_code (suc (suc (suc (suc zero)))) h = refl
digit_code (suc (suc (suc (suc (suc zero))))) h = refl
digit_code (suc (suc (suc (suc (suc (suc zero)))))) h = refl
digit_code (suc (suc (suc (suc (suc (suc (suc zero))))))) h = refl
digit_code (suc (suc (suc (suc (suc (suc (suc (suc zero)))))))) h = refl
digit_code (suc (suc (suc (suc (suc (suc (suc (suc (suc zero))))))))) h = refl
digit_code (suc (suc (suc (suc (suc (suc (suc (suc (suc (suc n)))))))))) h = absurd (omega arith)

digit_read :
    (d acc : ℕ) (rest : String)
    → d < 10
    → more_digits acc false (String.◌∷◌ (digit_char d) rest) ≡ more_digits (acc * 10 + d) false rest
unfolding more_digits
digit_read d acc rest h = ground (arith, digit_code d h)

digit_first :
    (d : ℕ) (rest : String)
    → d < 10
    → natural_text (String.◌∷◌ (digit_char d) rest) ≡ more_digits d false rest
unfolding natural_text
digit_first d rest h = ground (arith, digit_code d h)

digits_first :
    (f n : ℕ) (rest : String)
    → n < f
    → natural_text (digits_of f n rest) ≡ more_digits (shift f n 0) false rest
unfolding digits_of
digits_first zero n rest h = absurd (omega arith)
digits_first (suc f) n rest h = elim (Bool-cases (ltb n 10)) [
  | inl small ↦
      rw small
        (digit_first n rest (ground arith) ∙ ap (λ k. more_digits k false rest) (omega arith))
  | inr big ↦
      rw (big, digits_first f (n / 10) (String.◌∷◌ (digit_char (n % 10)) rest) (ground arith))
        (digit_read (n % 10) _ rest (omega arith))
]

-- The first character of a numeral is neither a blank nor a sign.
digits_positive :
    (f n : ℕ) (rest : String)
    → n < f
    → int_of_text (digits_of f n rest) ≡ positive (natural_text (digits_of f n rest))
unfolding digits_of
digits_positive zero n rest h = absurd (omega arith)
digits_positive (suc f) n rest h = elim (Bool-cases (ltb n 10)) [
  | inl small ↦ rw small (unfold int_of_text in ground (arith, digit_code n (ground arith)))
  | inr big ↦ rw big (digits_positive f (n / 10) _ (ground arith))
]

natural-show_ℕ : (n : ℕ) → natural_text (show_ℕ n) ≡ some n
unfolding show_ℕ more_digits
natural-show_ℕ n =
    digits_first (suc n) n "" (omega arith) ∙ ap some (shift_zero (suc n) n (omega arith))

-- `int(str(n)) == n`
pub int-show_ℤ : (n : ℤ) → int_of_text (show_ℤ n) ≡ some n
unfolding show_ℤ positive
int-show_ℤ (pos n) = digits_positive (suc n) n "" (omega arith) ∙ rw natural-show_ℕ
int-show_ℤ (negsuc n) = unfold int_of_text negate in rw natural-show_ℕ

digits-Without :
    (sep f n : ℕ) (rest : String)
    → n < f
    → sep < 48
    → Without sep rest
    → Without sep (digits_of f n rest)
unfolding digits_of
digits-Without sep zero n rest h low w = absurd (omega arith)
digits-Without sep (suc f) n rest h low w = elim (Bool-cases (ltb n 10)) [
  | inl small ↦ rw small (ground (arith, digit_code n (ground arith)), w)
  | inr big ↦ rw big (
      digits-Without sep f (n / 10) _ (ground arith) low
        (ground (arith, digit_code (n % 10) (omega arith)), w))
]

-- A numeral has no character below its digits, such as `.` or `/`.
pub show_ℕ-Without : (sep n : ℕ) → sep < 48 → Without sep (show_ℕ n)
unfolding show_ℕ
show_ℕ-Without sep n low = digits-Without sep (suc n) n "" (omega arith) low tt
