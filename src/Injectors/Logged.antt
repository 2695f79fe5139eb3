-- ===== src/Injectors/Logged.antt =====
-- What an entry of the log says about the injections before it.
use faultynet.Shared.{
  String, ◌≡◌, refl, sym, ◌∙◌, Bool, false, none, some, List, [], ◌∷◌, All, any, str_eq, eq_iff,
  arith, lookup, insert, erase, values, Bool-cases, inl, inr,
}
use faultynet.Values.{Floats}
use faultynet.FaultLogger.{
  Entry, ActiveFaults, set_fault_active, set_fault_inactive, get_active_faults,
}
use faultynet.Injectors.Script.{Event, inject, eject, slept, World, Shell, perform, perform_all}
use faultynet.Injectors.Traces.{is_marked, marked_after_all, is_marked-perform_all}

-- Every fault stands under its own tag.
abbrev pub IsTable : ActiveFaults → Type 0
IsTable d = All (λ (k, e). e.fault_tag ≡ k) d

insert-IsTable :
    (k : String) (e : Entry) (d : ActiveFaults)
    → e.fault_tag ≡ k
    → IsTable d
    → IsTable (insert k e d)
unfolding insert
insert-IsTable k e [] h t = (h, tt)
insert-IsTable k e ((j, x) ∷ d) h t = elim (Bool-cases (str_eq j k)) [
  | inl same ↦ rw same (h ∙ sym ((eq_iff j k).0 same), t.1)
  | inr other ↦ rw other (t.0, insert-IsTable k e d h t.1)
]

erase-IsTable : (k : String) (d : ActiveFaults) → IsTable d → IsTable (erase k d)
unfolding erase
erase-IsTable k [] t = tt
erase-IsTable k ((j, x) ∷ d) t = elim (Bool-cases (str_eq j k)) [
  | inl same ↦ rw same (erase-IsTable k d t.1)
  | inr other ↦ rw other (t.0, erase-IsTable k d t.1)
]

inactive-IsTable : (k : String) (d : ActiveFaults) → IsTable d → IsTable (set_fault_inactive k d)
unfolding set_fault_inactive
inactive-IsTable k d t =
    elim (lookup k d) as (λ o. IsTable (elim o [ none ↦ d | some _ ↦ erase k d ])) [
      | none ↦ t
      | some e ↦ erase-IsTable k d t
    ]

pub perform-IsTable :
    {F : Floats} (shell : Shell) (w : World) (e : Event F)
    → IsTable w.active
    → IsTable (perform shell w e).active
unfolding perform set_fault_active
perform-IsTable shell w (inject t ty none c) h = insert-IsTable t _ w.active refl h
perform-IsTable shell w (inject t ty (some r) c) h = insert-IsTable t _ w.active refl h
perform-IsTable shell w (eject t none) h = inactive-IsTable t w.active h
perform-IsTable shell w (eject t (some r)) h = inactive-IsTable t w.active h
perform-IsTable shell w (slept v) h = h

perform_all-IsTable :
    {F : Floats} (shell : Shell) (w : World) (es : List (Event F))
    → IsTable w.active
    → IsTable (perform_all shell w es).active
unfolding perform_all
perform_all-IsTable shell w [] h = h
perform_all-IsTable shell w (e ∷ es) h =
    perform_all-IsTable shell (perform shell w e) es (perform-IsTable shell w e h)

-- Is a fault of the tag among those of an entry of the log.
abbrev pub is_logged : String → List Entry → Bool
is_logged tag es = any (λ e. str_eq e.fault_tag tag) es

is_logged-is_marked :
    (tag : String) (d : ActiveFaults)
    → IsTable d
    → is_logged tag (get_active_faults d) ≡ is_marked tag d
unfolding get_active_faults values is_marked lookup
is_logged-is_marked tag [] h = refl
is_logged-is_marked tag ((k, e) ∷ d) h = ground (arith, h.0, is_logged-is_marked tag d h.1)

-- Whatever injectors have run since the start, in whatever interleaving: an entry of the log lists a
-- fault of a tag exactly where the last event of that tag was an injection.
pub logged-iff-injected :
    {F : Floats} (shell : Shell) (tag : String) (es : List (Event F)) (history : List String)
    → is_logged tag (
        get_active_faults (perform_all shell (record { active = []; history = history }) es).active)
      ≡ marked_after_all tag false es
unfolding is_marked lookup
logged-iff-injected shell tag es history =
    let w : World = record { active = []; history = history } in
    is_logged-is_marked tag _ (perform_all-IsTable shell w es tt)
    ∙ is_marked-perform_all tag shell w es
