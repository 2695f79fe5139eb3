-- ===== src/Injectors/Returned.antt =====
-- What an injector that returns has left behind: `fault_injectors.py` removes a fault before it goes
-- on, so a run that ends without an exception has removed all that it added.
pub mod Nodes
pub mod Runs
use faultynet.Shared.{
  ℕ, zero, suc, String, ◌≡◌, refl, Bool, true, false, List, ok, err, Result, All, All-append,
  eq_iff, str_eq, arith, if◌then◌else◌, err-ne-ok, ◌∙◌,
}
use faultynet.Values.{Floats, Value, null, int, float, text}
use faultynet.Injectors.Script.{Event, Script, continue, ◌>>=◌, lift, emit, eject, sleep, repeat}
use faultynet.Injectors.Traces.{
  IsOwn, marked_after_all, marked_after_all-append, IsTidy, IsTidy-sleep,
}

module _ {F : Floats} (tag : String) where
  -- A script that only touches its own tag and, if it returns, leaves it absent. The tag was in the
  -- table or not, as the first argument says.
  pub record Leaves {A : Type 0} (b : Bool) (s : Script F A) : Type 0 where
    pub own : All (IsOwn tag) s.events
    pub cleared : (a : A) → s.result ≡ ok a → marked_after_all tag b s.events ≡ false

  pub IsTidy-Leaves : {A : Type 0} {s : Script F A} → IsTidy tag s → Leaves false s
  IsTidy-Leaves t = record { own = t.own; cleared = λ a h. t.cleared }

  module _ {A B : Type 0} where
    Leaves-continue :
        (b : Bool) (es : List (Event F)) (r : Result A) (f : A → Script F B)
        → All (IsOwn tag) es
        → ((a : A) → r ≡ ok a → Leaves (marked_after_all tag b es) (f a))
        → Leaves b (continue es r f)
    Leaves-continue b es (ok a) f own then_f = record {
      own = All-append (IsOwn tag) es _ own (then_f a refl).own;
      cleared = λ v h. marked_after_all-append tag b es (f a).events ∙ (then_f a refl).cleared v h;
    }
    Leaves-continue b es (err e) f own then_f = record {
      own = own;
      cleared = λ v h. absurd (err-ne-ok h);
    }

    -- The rest finds the tag absent.
    pub Leaves-bind :
        (b : Bool) (m : Script F A) (f : A → Script F B)
        → Leaves b m
        → ((a : A) → Leaves false (f a))
        → Leaves b (m >>= f)
    Leaves-bind b m f c then_f =
        Leaves-continue b m.events m.result f c.own λ a h. rw (c.cleared a h) (then_f a)

    -- The rest takes care of the tag.
    pub Leaves-before :
        (b : Bool) (m : Script F A) (f : A → Script F B)
        → All (IsOwn tag) m.events
        → ((b' : Bool) (a : A) → Leaves b' (f a))
        → Leaves b (m >>= f)
    Leaves-before b m f own then_f = Leaves-continue b m.events m.result f own λ a h. then_f _ a

  pub Leaves-lift : {A : Type 0} (r : Result A) → Leaves false (lift r)
  Leaves-lift r = record { own = tt; cleared = λ a h. refl }

  pub Leaves-sleep : (v : Value F) → Leaves false (sleep v)
  Leaves-sleep v = IsTidy-Leaves (IsTidy-sleep tag v)

  pub Leaves-if :
      {A : Type 0} (c : Bool) (m n : Script F A)
      → Leaves false m
      → Leaves false n
      → Leaves false (if c then m else n)
  Leaves-if true m n lm ln = lm
  Leaves-if false m n lm ln = ln

  pub Leaves-repeat :
      (n : ℕ) (body : Script F (Unit {0})) → Leaves false body → Leaves false (repeat n body)
  unfolding repeat
  Leaves-repeat zero body leaves = record { own = tt; cleared = λ a h. refl }
  Leaves-repeat (suc n) body leaves =
      Leaves-bind false body (λ _. repeat n body) leaves (λ _. Leaves-repeat n body leaves)

pub ruleset leaving_rules = (Leaves-bind, Leaves-lift, Leaves-sleep, Leaves-if, Leaves-repeat)
