-- ===== src/Values.antt =====
-- The scalars that a fault's configuration holds, and Python's conversions of them. Floating-point
-- numbers are an interface: the program's arithmetic on them is that of the interpreter.
use faultynet.Shared.{
  ℕ, String, Bool, Option, none, some, List, Result, ok, err, type_error, value_error, index_error,
  zero_division, ◌>>=◌, get_elem?, ℤ, pos, int_of_text, show_ℤ,
}

-- `float`: `div` is `none` for a ZeroDivisionError, `trunc` (the `int` of a float) where it raises.
pub record Floats : Type 1 where
  pub Float : Type 0
  pub of_int : ℤ → Float
  pub of_text : String → Option Float
  pub show : Float → String
  pub sub : Float → Float → Float
  pub mul : Float → Float → Float
  pub div : Float → Float → Option Float
  pub trunc : Float → Option ℤ
  pub lt : Float → Float → Bool

-- A value that the YAML reader returns where the program expects a scalar.
pub data Value (F : Floats) : Type 0 where
  null : Value F
  int : ℤ → Value F
  float : F.Float → Value F
  text : String → Value F

abbrev pub or_raise {ℓ} : {A : Type ℓ} → Option A → Result A → Result A
or_raise none e = e
or_raise (some a) e = ok a

module _ {F : Floats} where
  -- `int(v)`
  unfoldable pub to_int : Value F → Result ℤ
  to_int null = err type_error
  to_int (int n) = ok n
  to_int (float x) = or_raise (F.trunc x) (err value_error)
  to_int (text s) = or_raise (int_of_text s) (err value_error)

  -- `str(v)`
  unfoldable pub to_str : Value F → String
  to_str null = "None"
  to_str (int n) = show_ℤ n
  to_str (float x) = F.show x
  to_str (text s) = s

  -- `float(v)`
  unfoldable pub to_float : Value F → Result F.Float
  to_float null = err type_error
  to_float (int n) = ok (F.of_int n)
  to_float (float x) = ok x
  to_float (text s) = or_raise (F.of_text s) (err value_error)

  -- A value used as an operand of a concatenation of texts.
  unfoldable pub need_text : Value F → Result String
  need_text (text s) = ok s
  need_text _ = err type_error

  -- `values[i]` of a list that may be absent
  unfoldable pub item : Option (List (Value F)) → ℕ → Result (Value F)
  item none i = err type_error
  item (some vs) i = or_raise (get_elem? vs i) (err index_error)

module _ (F : Floats) where
  unfoldable pub divide : F.Float → F.Float → Result F.Float
  divide a b = or_raise (F.div a b) (err zero_division)

  -- `x / 1000`
  unfoldable pub milliseconds : F.Float → Result F.Float
  unfolding divide
  milliseconds x = divide x (F.of_int (pos 1000))

  -- `int(a / b)`
  unfoldable pub quotient : F.Float → F.Float → Result ℤ
  unfolding divide
  quotient a b = divide a b >>= λ q. or_raise (F.trunc q) (err value_error)
