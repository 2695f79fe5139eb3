-- ===== src/Injectors/Script.antt =====
-- What a coroutine of an injector does: the list of its effects, in order, and how it ends. Between
-- two sleeps nothing else runs, so a shell command and the entry that the logger makes of its
-- return code are one effect.
use faultynet.Shared.{
  ℕ, zero, suc, String, Option, none, some, List, [], ◌∷◌, ◌++◌, ℤ, pos, Result, ok, err,
  type_error,
}
use faultynet.Values.{Floats, Value, null, int, float, text}
use faultynet.FaultLogger.{ActiveFaults, set_fault_active, set_fault_inactive}

-- `inject tag fault_type run shown` runs a command, if there is one, and marks the fault as active;
-- the logger is told of the command `shown`. `eject tag run` marks it as inactive.
pub data Event (F : Floats) : Type 0 where
  inject : String → String → Option String → String → Event F
  eject : String → Option String → Event F
  slept : Value F → Event F

pub record Script (F : Floats) (A : Type 0) : Type 0 where
  pub events : List (Event F)
  pub result : Result A

module _ {F : Floats} {A : Type 0} where
  abbrev pub return : A → Script F A
  return a = record { events = []; result = ok a }

  abbrev pub lift : Result A → Script F A
  lift r = record { events = []; result = r }

module _ {F : Floats} {A B : Type 0} where
  abbrev pub continue : List (Event F) → Result A → (A → Script F B) → Script F B
  continue es (ok a) f = record { events = es ++ (f a).events; result = (f a).result }
  continue es (err e) f = record { events = es; result = err e }

  infixl 5 ◌>>=◌ ◌>>◌
  abbrev pub ◌>>=◌ : Script F A → (A → Script F B) → Script F B
  m >>= f = continue m.events m.result f

  abbrev pub ◌>>◌ : Script F A → Script F B → Script F B
  m >> n = m >>= λ _. n

module _ {F : Floats} where
  abbrev pub emit : Event F → Script F (Unit {0})
  emit e = record { events = e ∷ []; result = ok tt }

  -- `await asyncio.sleep(v)`, which compares `v` with a number first.
  unfoldable pub sleep : Value F → Script F (Unit {0})
  sleep null = lift (err type_error)
  sleep (int n) = emit (slept (int n))
  sleep (float x) = emit (slept (float x))
  sleep (text s) = lift (err type_error)

  -- `for _ in range(n)` over a body that keeps no variable.
  unfoldable pub repeat : ℕ → Script F (Unit {0}) → Script F (Unit {0})
  repeat zero body = return tt
  repeat (suc n) body = do body; repeat n body

-- The state that all coroutines share: the table of active faults and the commands run so far.
pub record World : Type 0 where
  pub active : ActiveFaults
  pub history : List String

-- The shell: the return code of a command after the commands run before it.
abbrev pub Shell : Type 0
Shell = List String → String → ℤ

module _ {F : Floats} (shell : Shell) where
  unfoldable pub perform : World → Event F → World
  unfolding set_fault_active set_fault_inactive
  perform w (inject tag fault_type none shown) = record w {
    active = set_fault_active tag fault_type shown (pos 0) w.active;
  }
  perform w (inject tag fault_type (some command) shown) = record {
    active = set_fault_active tag fault_type shown (shell w.history command) w.active;
    history = w.history ++ (command ∷ []);
  }
  perform w (eject tag none) = record w { active = set_fault_inactive tag w.active }
  perform w (eject tag (some command)) = record {
    active = set_fault_inactive tag w.active;
    history = w.history ++ (command ∷ []);
  }
  perform w (slept v) = w

  unfoldable pub perform_all : World → List (Event F) → World
  unfolding perform
  perform_all w [] = w
  perform_all w (e ∷ es) = perform_all (perform w e) es
