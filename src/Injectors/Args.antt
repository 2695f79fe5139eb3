-- ===== src/Injectors/Args.antt =====
-- The arguments that the builders of tc commands share.
use faultynet.Shared.{
  ℕ, ltb, String, ◌||◌, Option, none, some, List, [], ◌∷◌, Result, ok, err, type_error, ◌>>=◌,
  length, str_eq, cat, show_ℕ, if◌then◌else◌,
}
use faultynet.Values.{Floats, Value, text, item, need_text, to_str}

module _ (tc_path : String) where
  -- The tc binary, in the node's network namespace if it has one.
  unfoldable pub base_command_tc : Option ℕ → String
  unfolding cat show_ℕ
  base_command_tc none = cat (tc_path ∷ "/tc " ∷ [])
  base_command_tc (some pid) =
      cat ("nsenter --target " ∷ show_ℕ pid ∷ " --net " ∷ tc_path ∷ "/tc " ∷ [])

-- `str(node_pid)`
unfoldable pub show_pid : Option ℕ → String
unfolding show_ℕ
show_pid none = "None"
show_pid (some pid) = show_ℕ pid

-- An interface's name as an operand of a concatenation: it may be absent.
unfoldable pub need_device : Option String → Result String
need_device none = err type_error
need_device (some device) = ok device

module _ {F : Floats} where
  -- `fault_args[1]`, or 'redirect' where it is missing or another value.
  unfoldable pub redirect_or_mirror : Option (List (Value F)) → String
  redirect_or_mirror (some (_ ∷ text s ∷ _)) =
      if str_eq s "mirror" || str_eq s "redirect" then s else "redirect"
  redirect_or_mirror _ = "redirect"

  -- `len(values)`
  unfoldable pub len_of : Option (List (Value F)) → Result ℕ
  len_of none = err type_error
  len_of (some vs) = ok (length vs)

  -- Burst and limit of a bottleneck: the arguments 1 and 2 if there are three, else the defaults.
  unfoldable pub bottleneck_sizes : Option (List (Value F)) → Result (String × String)
  unfolding len_of item to_str
  bottleneck_sizes args = len_of args >>= λ n.
      let given =
        item args 1 >>= λ burst. item args 2 >>= λ limit. ok (to_str burst, to_str limit) in
      let sizes : String × String = ("1600", "3000") in if ltb 2 n then given else ok sizes

  -- `fault_args[0]` where a text is concatenated
  unfoldable pub text_item : Option (List (Value F)) → ℕ → Result String
  unfolding item need_text
  text_item args i = item args i >>= need_text

  -- `fault_pattern_args if fault_pattern_args else None`
  unfoldable pub or_null : Option (List (Value F)) → Option (List (Value F))
  or_null none = none
  or_null (some []) = none
  or_null (some (v ∷ vs)) = some (v ∷ vs)
