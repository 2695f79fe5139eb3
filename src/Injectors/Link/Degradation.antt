-- ===== src/Injectors/Link/Degradation.antt =====
-- The arguments of the degradation pattern of a link, and the value of the next round.
use faultynet.Shared.{
  ltb, String, Option, List, Result, ok, ◌>>=◌, ℤ, pos, ◌+ℤ◌, ltb_ℤ, min_ℤ, show_ℤ, if◌then◌else◌,
}
use faultynet.Values.{Floats, Value, int, text, to_int, to_str, item, milliseconds}
use faultynet.Injectors.Args.{len_of}

pub record Degradation (F : Floats) : Type 0 where
  pub end : ℤ
  pub start : Value F
  pub step_length : F.Float
  pub step_size : String

module _ {F : Floats} where
  -- The defaults stand where the list is too short.
  unfoldable pub degradation_of : Option (List (Value F)) → Result (Degradation F)
  unfolding len_of item to_int to_str milliseconds
  degradation_of args = len_of args >>= λ n.
      let given_end = item args 3 >>= to_int >>= λ e. ok (min_ℤ e (pos 100)) in
      let given_start : Result (Value F) = item args 2 >>= λ v. ok (text (to_str v)) in
      let given_length = item args 1 >>= to_int >>= λ l. ok (F.of_int l) in
      let given_size = item args 0 >>= λ v. ok (to_str v) in
      (if ltb 3 n then given_end else ok (pos 100)) >>= λ end.
      (if ltb 2 n then given_start else ok (int (pos 0))) >>= λ start.
      (if ltb 1 n then given_length else ok (F.of_int (pos 1000))) >>= milliseconds F >>= λ length.
      (if ltb 0 n then given_size else ok (show_ℤ (pos 5))) >>= λ size.
      ok (record { end = end; start = start; step_length = length; step_size = size })

  -- `str(int(value) + int(step_size))`, or the end where that is passed.
  unfoldable pub next_degradation : Value F → String → ℤ → Result (Value F)
  unfolding to_int
  next_degradation value step_size end = to_int value >>= λ v.
      to_int {F = F} (text step_size) >>= λ step.
      let sum = text (show_ℤ (v +ℤ step)) in
      to_int {F = F} sum >>= λ reread. ok (if ltb_ℤ end reread then text (show_ℤ end) else sum)
