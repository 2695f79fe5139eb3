-- ===== src/Injectors/Nodes/Rounds.antt =====
-- A command, a wait and the command that undoes it, under one tag.
use faultynet.Shared.{ℤ, String, ◌≡◌, refl, true, ok, err-ne-ok, Option, ◌∷◌, arith, eq_iff, str_eq}
use faultynet.Values.{Floats, Value, null, int, float, text}
use faultynet.Injectors.Script.{inject, eject, slept, Script, sleep, emit, ◌>>=◌}
use faultynet.Injectors.Nodes.{number}
use faultynet.Injectors.Traces.{IsTidy}

pub number-float : (F : Floats) (x : F.Float) → number {F = F} (float x) ≡ ok x
unfolding number
number-float F x = refl

pub number-int : (F : Floats) (n : ℤ) → number {F = F} (int n) ≡ ok (F.of_int n)
unfolding number
number-int F n = refl

module _ {F : Floats} (tag : String) (fault_type shown : String) (start end : Option String) where
  -- The wait is a number.
  pub round-IsTidy :
      (v : Value F) (time : F.Float)
      → number v ≡ ok time
      → IsTidy tag
          (emit (inject tag fault_type start shown) >>= λ _. sleep v >>= λ _. emit (eject tag end))
  unfolding sleep number
  round-IsTidy null time h = absurd (err-ne-ok h)
  round-IsTidy (int n) time h = record {
    own = (refl, (tt, (refl, tt)));
    cleared = ground (arith, eq_iff tag tag);
  }
  round-IsTidy (float x) time h = record {
    own = (refl, (tt, (refl, tt)));
    cleared = ground (arith, eq_iff tag tag);
  }
  round-IsTidy (text s) time h = absurd (err-ne-ok h)

  -- What follows the three effects.
  followed :
      (v : Value F) (s : Script F (Unit {0}))
      → IsTidy tag s
      → IsTidy tag (record {
        events = inject tag fault_type start shown ∷ slept v ∷ eject tag end ∷ s.events;
        result = s.result;
      })
  followed v s tidy =
      let same : str_eq tag tag ≡ true = (eq_iff tag tag).1 refl in
      record { own = (refl, (tt, (refl, tidy.own))); cleared = rw same tidy.cleared }

  -- The same, and what comes then.
  pub then-IsTidy :
      (v : Value F) (s : Script F (Unit {0})) (time : F.Float)
      → number v ≡ ok time
      → IsTidy tag s
      → IsTidy tag (
          emit (inject tag fault_type start shown) >>= λ _.
          sleep v >>= λ _. emit (eject tag end) >>= λ _. s)
  unfolding sleep number
  then-IsTidy null s time h tidy = absurd (err-ne-ok h)
  then-IsTidy (int n) s time h tidy = followed (int n) s tidy
  then-IsTidy (float x) s time h tidy = followed (float x) s tidy
  then-IsTidy (text t) s time h tidy = absurd (err-ne-ok h)
