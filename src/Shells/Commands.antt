-- ===== src/Shells/Commands.antt =====
-- mininet/node.py: `sendCmd` and `cmd`. The pattern `\w` and the names of the shell's builtins are
-- parameters.
use Prim.Native.Char.{Char, code}
use faultynet.Shared.{
  ℕ, ◌+◌, ◌≤◌, ◌==◌, ◌≡◌, ap, String, Bool, true, false, not, ◌&&◌, ◌||◌, Option, none, some, List,
  [], ◌∷◌, ◌++◌, length, concat, All, cat, Result, ok, err, assertion_error, unbound_error,
  if◌then◌else◌, ◌>>?◌,
}
use faultynet.Addresses.{join_with}
use faultynet.Shells.{Shell, wait_output}
use faultynet.Shells.Pids.{Codes}
use faultynet.Shells.Output.{IsPlain, wait_output_returns}

-- Does the text end with the character.
abbrev pub ends_with : ℕ → String → Bool
ends_with c String.[] = false
ends_with c (String.◌∷◌ x String.[]) = code x == c
ends_with c (String.◌∷◌ x (String.◌∷◌ y s)) = ends_with c (String.◌∷◌ y s)

-- The process of the shell, after `poll`.
pub data Process : Type 0 where
  absent running died : Process

module _ (is_word : Char → Bool) where
  abbrev pub has_word : String → Bool
  has_word String.[] = false
  has_word (String.◌∷◌ c s) = is_word c || has_word s

  -- An empty command is replaced by something harmless.
  abbrev pub harmless : String → String
  harmless cmd = if has_word cmd then cmd else "echo -n"

module _ (is_builtin : String → Bool) where
  -- What is added for the number of the process.
  abbrev pub with_pid : Bool → String → String
  with_pid print_pid cmd =
      if ends_with 38 cmd
      then cat (cmd ∷ " printf \"\\001%d\\012\" $! " ∷ [])
      else if print_pid && not (is_builtin cmd)
      then cat ("mnexec -p " ∷ cmd ∷ [])
      else cmd

-- The output behind the text that is written; none where the shell blocks.
abbrev pub output_of : ℕ → Result (String × Shell) → Option (Result (String × Option Codes × Shell))
output_of fuel (err e) = some (err e)
output_of fuel (ok (written, s)) =
    wait_output fuel true [] s >>? λ (got, s1). some (ok (written, some got, s1))

module _ (is_word : Char → Bool) (is_builtin : String → Bool) where
  -- `sendCmd`, where `waiting` is what it is after the sleeps: the text that is written, and the state.
  unfoldable pub send_cmd : Bool → Bool → List String → Shell → Result (String × Shell)
  unfolding cat join_with
  send_cmd shell print_pid [] s =
      if shell && not s.waiting then err unbound_error else err assertion_error
  send_cmd shell print_pid (arg ∷ args) s =
      let cmd = harmless is_word (join_with " " (arg ∷ args)) in
      if shell && not s.waiting
      then ok (
        cat (with_pid is_builtin print_pid cmd ∷ "\n" ∷ []),
        record s { last_pid = none; waiting = true },
      )
      else err assertion_error

  -- `cmd`, for the state that `startShell` leaves where the shell has died
  unfoldable pub run_cmd :
      ℕ
      → Process
      → Shell
      → Bool
      → List String
      → Shell
      → Option (Result (String × Option Codes × Shell))
  unfolding send_cmd wait_output
  run_cmd fuel absent started print_pid args s = some (ok ("", none, s))
  run_cmd fuel running started print_pid args s = output_of fuel (send_cmd true print_pid args s)
  run_cmd fuel died started print_pid args s = output_of fuel (send_cmd true print_pid args started)

  -- A command for a running shell that waits for none and has nothing in its buffer returns the whole
  -- output, provided that this comes in parts of at most 1023 characters without a sentinel or the mark
  -- of a process, and with the sentinel at its end. Afterwards the shell waits for no command, its
  -- buffer is empty, and later output is still to come: the next command finds what this one has found.
  pub run_cmd_returns :
      (fuel : ℕ) (started : Shell) (print_pid : Bool) (arg : String) (args : List String)
      (parts : List Codes) (end : Codes) (rest : List Codes) (s : Shell)
      → length parts + 2 ≤ fuel
      → All IsPlain parts
      → IsPlain end
      → run_cmd fuel running started print_pid (arg ∷ args) (record s {
        readbuf = [];
        waiting = false;
        incoming = parts ++ ((end ++ (127 ∷ [])) ∷ rest);
      })
        ≡ some (
            ok (
              cat (
                  with_pid is_builtin print_pid (harmless is_word (join_with " " (arg ∷ args)))
                  ∷ "\n"
                  ∷ []),
              some (concat parts ++ end),
              record { readbuf = []; waiting = false; last_pid = none; incoming = rest },
            ))
  unfolding run_cmd send_cmd
  run_cmd_returns fuel started print_pid arg args parts end rest s h ps e =
      ap
        (λ o. o >>? λ (got, s1). some (
          ok (
            cat (
                with_pid is_builtin print_pid (harmless is_word (join_with " " (arg ∷ args)))
                ∷ "\n"
                ∷ []),
            some got,
            s1,
          )))
        (wait_output_returns fuel true [] parts end rest (record s { last_pid = none }) h ps e)
