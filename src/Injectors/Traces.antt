-- ===== src/Injectors/Traces.antt =====
-- What a list of effects does to the table of active faults, and the scripts that leave nothing
-- active. `fault_injectors.py` and `faultlogger.py`: every injector activates and deactivates under
-- its own tag.
use faultynet.Shared.{
  ℕ, zero, suc, String, ◌≡◌, refl, ◌≢◌, ◌∙◌, Bool, true, false, none, some, List, [], ◌∷◌, ◌++◌, ok,
  err, Exn, Result, arith, eq_iff, str_eq, All, All-append, lookup, pos, if◌then◌else◌,
}
use faultynet.Values.{Floats, Value, null, int, float, text}
use faultynet.FaultLogger.{ActiveFaults}
use faultynet.FaultLogger.Table.{lookup-set_fault_active, lookup-set_fault_inactive}
use faultynet.Injectors.Script.{
  Event, inject, eject, slept, Script, World, Shell, perform, perform_all, continue, ◌>>=◌, lift,
  sleep, repeat,
}

-- Is the tag in the table.
unfoldable pub is_marked : String → ActiveFaults → Bool
is_marked tag d = elim (lookup tag d) [ none ↦ false | some _ ↦ true ]

-- The events of two coroutines in the order in which they happen.
pub data Merge {F : Floats} : List (Event F) → List (Event F) → List (Event F) → Type 0 where
  done : Merge [] [] []
  mine : {e : Event F} {xs ys zs : List (Event F)} → Merge xs ys zs → Merge (e ∷ xs) ys (e ∷ zs)
  theirs : {e : Event F} {xs ys zs : List (Event F)} → Merge xs ys zs → Merge xs (e ∷ ys) (e ∷ zs)

module _ {F : Floats} (tag : String) where
  -- Whether the tag is in the table after an event, from whether it was before.
  abbrev pub marked_after : Bool → Event F → Bool
  marked_after b (inject t _ _ _) = if str_eq t tag then true else b
  marked_after b (eject t _) = if str_eq t tag then false else b
  marked_after b (slept _) = b

  abbrev pub marked_after_all : Bool → List (Event F) → Bool
  marked_after_all b [] = b
  marked_after_all b (e ∷ es) = marked_after_all (marked_after b e) es

  -- An event of this tag's injector.
  abbrev pub IsOwn : Event F → Type 0
  IsOwn (inject t _ _ _) = t ≡ tag
  IsOwn (eject t _) = t ≡ tag
  IsOwn (slept _) = Unit

  pub marked_after_all-append :
      (b : Bool) (xs ys : List (Event F))
      → marked_after_all b (xs ++ ys) ≡ marked_after_all (marked_after_all b xs) ys
  marked_after_all-append b [] ys = refl
  marked_after_all-append b (e ∷ xs) ys = marked_after_all-append (marked_after b e) xs ys

  pub is_marked-perform :
      (shell : Shell) (w : World) (e : Event F)
      → is_marked tag (perform shell w e).active ≡ marked_after (is_marked tag w.active) e
  unfolding perform is_marked
  is_marked-perform shell w (inject t ty none c) =
      ground (arith, lookup-set_fault_active t tag ty c (pos 0) w.active)
  is_marked-perform shell w (inject t ty (some r) c) =
      ground (arith, lookup-set_fault_active t tag ty c (shell w.history r) w.active)
  is_marked-perform shell w (eject t none) =
      ground (arith, lookup-set_fault_inactive t tag w.active)
  is_marked-perform shell w (eject t (some r)) =
      ground (arith, lookup-set_fault_inactive t tag w.active)
  is_marked-perform shell w (slept v) = refl

  pub is_marked-perform_all :
      (shell : Shell) (w : World) (es : List (Event F))
      → is_marked tag (perform_all shell w es).active ≡ marked_after_all (is_marked tag w.active) es
  unfolding perform_all
  is_marked-perform_all shell w [] = refl
  is_marked-perform_all shell w (e ∷ es) =
      rw (← is_marked-perform shell w e) (is_marked-perform_all shell (perform shell w e) es)

  lookup-perform_of_own :
      (shell : Shell) (j : String) (w : World) (e : Event F)
      → IsOwn e
      → j ≢ tag
      → lookup j (perform shell w e).active ≡ lookup j w.active
  unfolding perform
  lookup-perform_of_own shell j w (inject t ty none c) own ne =
      ground (arith, lookup-set_fault_active t j ty c (pos 0) w.active, eq_iff t j)
  lookup-perform_of_own shell j w (inject t ty (some r) c) own ne =
      ground (arith, lookup-set_fault_active t j ty c (shell w.history r) w.active, eq_iff t j)
  lookup-perform_of_own shell j w (eject t none) own ne =
      ground (arith, lookup-set_fault_inactive t j w.active, eq_iff t j)
  lookup-perform_of_own shell j w (eject t (some r)) own ne =
      ground (arith, lookup-set_fault_inactive t j w.active, eq_iff t j)
  lookup-perform_of_own shell j w (slept v) own ne = refl

  -- The other entries of the table stay as they are.
  pub lookup-perform_all_of_own :
      (shell : Shell) (j : String) (w : World) (es : List (Event F))
      → All IsOwn es
      → j ≢ tag
      → lookup j (perform_all shell w es).active ≡ lookup j w.active
  unfolding perform_all
  lookup-perform_all_of_own shell j w [] own ne = refl
  lookup-perform_all_of_own shell j w (e ∷ es) own ne =
      lookup-perform_all_of_own shell j (perform shell w e) es own.1 ne
      ∙ lookup-perform_of_own shell j w e own.0 ne

  -- An event of another injector.
  abbrev pub IsOther : Event F → Type 0
  IsOther (inject t _ _ _) = t ≢ tag
  IsOther (eject t _) = t ≢ tag
  IsOther (slept _) = Unit

  marked_after_of_other : (b : Bool) (e : Event F) → IsOther e → marked_after b e ≡ b
  marked_after_of_other b (inject t ty run c) other = ground (arith, eq_iff t tag)
  marked_after_of_other b (eject t run) other = ground (arith, eq_iff t tag)
  marked_after_of_other b (slept v) other = refl

  -- Whatever runs in between under other tags, the tag is in the table as if nothing did.
  pub marked_after_all-Merge :
      {xs ys zs : List (Event F)} (b : Bool)
      → Merge xs ys zs
      → All IsOther ys
      → marked_after_all b zs ≡ marked_after_all b xs
  marked_after_all-Merge b done others = refl
  marked_after_all-Merge b (mine {e = e} m) others =
      marked_after_all-Merge (marked_after b e) m others
  marked_after_all-Merge {ys = e ∷ ys} b (theirs m) others =
      rw (marked_after_of_other b e others.0) (marked_after_all-Merge b m others.1)

  -- A script that only touches its own tag and, started with the tag absent, leaves it absent,
  -- also where it raises.
  pub record IsTidy {A : Type 0} (s : Script F A) : Type 0 where
    pub own : All IsOwn s.events
    pub cleared : marked_after_all false s.events ≡ false

  module _ {A B : Type 0} where
    IsTidy-continue :
        (es : List (Event F)) (r : Result A) (f : A → Script F B)
        → All IsOwn es
        → marked_after_all false es ≡ false
        → ((a : A) → r ≡ ok a → IsTidy (f a))
        → IsTidy (continue es r f)
    IsTidy-continue es (ok a) f own cleared then_f =
        let tidy = then_f a refl in
        record {
          own = All-append IsOwn es _ own tidy.own;
          cleared = rw (marked_after_all-append false es (f a).events, cleared) tidy.cleared;
        }
    IsTidy-continue es (err e) f own cleared then_f = record { own = own; cleared = cleared }

    -- The rest may use the value that the first part returned.
    pub IsTidy-bind_of :
        (m : Script F A) (f : A → Script F B)
        → IsTidy m
        → ((a : A) → m.result ≡ ok a → IsTidy (f a))
        → IsTidy (m >>= f)
    IsTidy-bind_of m f tidy then_f =
        IsTidy-continue m.events m.result f tidy.own tidy.cleared then_f

    pub IsTidy-bind :
        (m : Script F A) (f : A → Script F B)
        → IsTidy m
        → ((a : A) → IsTidy (f a))
        → IsTidy (m >>= f)
    IsTidy-bind m f tidy then_f = IsTidy-bind_of m f tidy (λ a _. then_f a)

  pub IsTidy-lift : {A : Type 0} (r : Result A) → IsTidy (lift r)
  IsTidy-lift r = record { own = tt; cleared = refl }

  pub IsTidy-sleep : (v : Value F) → IsTidy (sleep v)
  unfolding sleep
  IsTidy-sleep null = record { own = tt; cleared = refl }
  IsTidy-sleep (int n) = record { own = (tt, tt); cleared = refl }
  IsTidy-sleep (float x) = record { own = (tt, tt); cleared = refl }
  IsTidy-sleep (text s) = record { own = tt; cleared = refl }

  pub IsTidy-if :
      {A : Type 0} (b : Bool) (m n : Script F A) → IsTidy m → IsTidy n → IsTidy (if b then m else n)
  IsTidy-if true m n tm tn = tm
  IsTidy-if false m n tm tn = tn

  pub IsTidy-repeat : (n : ℕ) (body : Script F (Unit {0})) → IsTidy body → IsTidy (repeat n body)
  unfolding repeat
  IsTidy-repeat zero body tidy = record { own = tt; cleared = refl }
  IsTidy-repeat (suc n) body tidy =
      IsTidy-bind body (λ _. repeat n body) tidy (λ _. IsTidy-repeat n body tidy)

  -- A script that activates, and one that undoes it by a single effect.
  pub record IsBracket (on off : Script F (Unit {0})) : Type 0 where
    pub own : All IsOwn on.events
    pub failed : (x : Exn) → on.result ≡ err x → on.events ≡ []
    pub removed :
        on.result ≡ ok tt
        → (c : String) × (off ≡ record { events = eject tag (some c) ∷ []; result = ok tt })

  removed_events :
      (es : List (Event F)) (v : Value F) (c : String) (own : All IsOwn es)
      → (All IsOwn (es ++ slept v ∷ eject tag (some c) ∷ []))
        × (marked_after_all false (es ++ slept v ∷ eject tag (some c) ∷ []) ≡ false)
  removed_events es v c own = (
    All-append IsOwn es _ own (tt, (refl, tt)),
    rw marked_after_all-append (ground (arith, eq_iff tag tag)),
  )

  IsTidy-bracket_of :
      (es : List (Event F)) (r : Result (Unit {0})) (x : F.Float) (off : Script F (Unit {0}))
      → IsBracket (record { events = es; result = r }) off
      → IsTidy (continue es r (λ _. sleep (float x) >>= λ _. off))
  unfolding sleep
  IsTidy-bracket_of es (ok u) x off b =
      let (c, e) = b.removed refl in
      let (own, cleared) = removed_events es (float x) c b.own in
      rw e (record { own = own; cleared = cleared })
  IsTidy-bracket_of es (err e) x off b = record { own = b.own; cleared = rw (b.failed e refl) }

  -- Between the two the script waits a time that is a number.
  pub IsTidy-bracket :
      (on off : Script F (Unit {0})) (x : F.Float)
      → IsBracket on off
      → IsTidy (on >>= λ _. sleep (float x) >>= λ _. off)
  IsTidy-bracket on off x b = IsTidy-bracket_of on.events on.result x off b

  -- Concurrently with others.
  pub IsTidy-cleans :
      {A : Type 0} {s : Script F A} {others trace : List (Event F)} (shell : Shell) (w : World)
      → IsTidy s
      → Merge s.events others trace
      → All IsOther others
      → is_marked tag w.active ≡ false
      → is_marked tag (perform_all shell w trace).active ≡ false
  IsTidy-cleans shell w tidy m o absent =
      rw (is_marked-perform_all shell w _, absent, marked_after_all-Merge false m o) tidy.cleared

pub ruleset tidy_rules = (IsTidy-bind, IsTidy-lift, IsTidy-sleep, IsTidy-if, IsTidy-repeat)
