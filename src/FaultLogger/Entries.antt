-- ===== src/FaultLogger/Entries.antt =====
-- What the loop of the logger has noted when it ends.
use faultynet.Shared.{if◌then◌else◌, ◌≡◌, refl, ◌∙◌, ap, true, false, List, [], ◌∷◌, ◌++◌, map, ℤ}
use faultynet.FaultLogger.{Entry, get_active_faults}
use faultynet.FaultLogger.Log.{
  FaultLogger, Tick, log, begin_logging, logging, stopped_before, stop_logging,
}

-- The moments before the logger is stopped.
abbrev pub until_stopped : List Tick → List Tick
until_stopped [] = []
until_stopped (t ∷ ticks) = elim t.stopped [ true ↦ [] | false ↦ t ∷ until_stopped ticks ]

abbrev pub table_of : Tick → List Entry
table_of t = get_active_faults t.table

map-snoc :
    {A B : Type 0} (f : A → B) (xs : List A) (y : A) (zs : List B)
    → map f (xs ++ (y ∷ [])) ++ zs ≡ map f xs ++ (f y ∷ zs)
map-snoc f [] y zs = refl
map-snoc f (x ∷ xs) y zs = ap (λ r. f x ∷ r) (map-snoc f xs y zs)

append-nil : {A : Type 0} (xs : List A) → xs ≡ xs ++ []
append-nil [] = refl
append-nil (x ∷ xs) = ap (λ r. x ∷ r) (append-nil xs)

entries_of :
    (ticks : List Tick) (self : FaultLogger)
    → self.active ≡ true
    → map (λ e. e.active_faults) (logging ticks self).logged_faults
      ≡ map (λ e. e.active_faults) self.logged_faults ++ map table_of (until_stopped ticks)
unfolding logging log
entries_of [] self h = append-nil _
entries_of (t ∷ ticks) self h =
    elim t.stopped
      as (λ b.
        map (λ e. e.active_faults)
          (if (stopped_before b self).active
            then logging ticks (log t.now t.output t.table self)
            else stopped_before b self).logged_faults
        ≡ map (λ e. e.active_faults) self.logged_faults
          ++ map table_of (elim b [ true ↦ [] | false ↦ t ∷ until_stopped ticks ])) [
            | true ↦ unfold stop_logging in append-nil _
            | false ↦
                ap
                  (λ a.
                    map (λ e. e.active_faults)
                      (if a
                        then logging ticks (log t.now t.output t.table self)
                        else self).logged_faults)
                  h
                ∙ (entries_of ticks (log t.now t.output t.table self) h
                    ∙ map-snoc (λ e. e.active_faults) self.logged_faults _ _)
          ]

-- A logger that starts empty notes one entry for each moment before it is stopped, in their order,
-- each with exactly the faults that the table of that moment holds.
logging-entries :
    (start : ℤ) (ticks : List Tick) (self : FaultLogger)
    → self.logged_faults ≡ []
    → map (λ e. e.active_faults) (logging ticks (begin_logging start self)).logged_faults
      ≡ map table_of (until_stopped ticks)
unfolding begin_logging
logging-entries start ticks self h =
    entries_of ticks (record self { start_time_ms = start; active = true }) refl
    ∙ ap (λ l. map (λ e. e.active_faults) l ++ map table_of (until_stopped ticks)) h
