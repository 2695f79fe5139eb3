-- ===== src/Controllers/ConfigFile/Gathering/Emptied.antt =====
-- What the injectors of a configuration leave in the table of active faults, run together.
use faultynet.Shared.{
  ℕ, String, str_eq, ◌≡◌, ◌≢◌, refl, sym, ◌∙◌, true, false, Option, List, [], ◌∷◌, map, All,
  Result-cases, ok, lookup, Bool-cases, inl, inr, eq_iff, arith,
}
use mathlib.Core.Path.{subst}
use mathlib.Core.Logic.{◌⊎◌}
use faultynet.Values.{Floats}
use faultynet.FaultLogger.{ActiveFaults}
use faultynet.Injectors.Script.{Event, inject, eject, slept, Script, Shell, World, perform_all}
use faultynet.Injectors.Traces.{
  Merge, done, mine, theirs, IsOwn, IsOther, is_marked, marked_after_all, marked_after_all-Merge,
  is_marked-perform_all,
}
use faultynet.Injectors.Returned.{Leaves}
use faultynet.Injectors.Returned.Nodes.{node-Leaves}
use faultynet.Injectors.Returned.Runs.{link-Leaves, multi-Leaves}
use faultynet.Injectors.Node.{Host}
use faultynet.Controllers.ConfigFile.{Injector, link, node, multi}
use faultynet.Controllers.ConfigFile.Gathering.{
  tag_of, injector_go, Ending, returned, Asleep, here, later, Part, ended, unbegun, asleep,
  Together, nobody, joined, Go, reports,
}

module _ {F : Floats} where
  Merge-flip : {xs ys zs : List (Event F)} → Merge xs ys zs → Merge ys xs zs
  Merge-flip done = done
  Merge-flip (mine m) = theirs (Merge-flip m)
  Merge-flip (theirs m) = mine (Merge-flip m)

  Merge-All :
      (P : Event F → Type 0) {xs ys zs : List (Event F)}
      → Merge xs ys zs
      → All P xs
      → All P ys
      → All P zs
  Merge-All P done p q = tt
  Merge-All P (mine m) p q = (p.0, Merge-All P m p.1 q)
  Merge-All P (theirs m) p q = (q.0, Merge-All P m p q.1)

  Asleep-All :
      (P : Event F → Type 0) {es part : List (Event F)} → Asleep es part → All P es → All P part
  Asleep-All P here p = (p.0, tt)
  Asleep-All P (later a) p = (p.0, Asleep-All P a p.1)

  own-IsOther :
      (tag j : String) (es : List (Event F)) → tag ≢ j → All (IsOwn tag) es → All (IsOther j) es
  own-IsOther tag j [] ne own = tt
  own-IsOther tag j (inject t ty run c ∷ es) ne own =
      (λ h. ne (sym own.0 ∙ h), own-IsOther tag j es ne own.1)
  own-IsOther tag j (eject t run ∷ es) ne own =
      (λ h. ne (sym own.0 ∙ h), own-IsOther tag j es ne own.1)
  own-IsOther tag j (slept v ∷ es) ne own = (tt, own-IsOther tag j es ne own.1)

  Part-IsOwn :
      (tag : String) {s : Script F (Unit {0})} {es : List (Event F)} {o : Ending}
      → Leaves tag false s
      → Part s es o
      → All (IsOwn tag) es
  Part-IsOwn tag leaves ended = leaves.own
  Part-IsOwn tag leaves unbegun = tt
  Part-IsOwn tag leaves (asleep a) = Asleep-All (IsOwn tag) a leaves.own

  -- What has returned has left the tag absent; what has not is one of the others.
  Part-cleared :
      (tag : String) {s : Script F (Unit {0})} {es : List (Event F)} {o : Ending}
      → Leaves tag false s
      → Part s es o
      → (marked_after_all tag false es ≡ false) ⊎ (o ≢ returned)
  Part-cleared tag {s} leaves ended = elim (Result-cases s.result) [
    | inl (a, e) ↦ inl (leaves.cleared a e)
    | inr (x, e) ↦ rw e (inr (λ h. cc))
  ]
  Part-cleared tag leaves unbegun = inl refl
  Part-cleared tag leaves (asleep a) = inr (λ h. cc)

  -- No two injectors have one tag.
  abbrev pub HasOwnTags : List (Injector F) → Type 0
  HasOwnTags [] = Unit
  HasOwnTags (i ∷ faults) = All (λ k. tag_of k ≢ tag_of i) faults × HasOwnTags faults

  -- An injector of the tag has not returned.
  abbrev pub IsUnfinished : String → List (Injector F) → List Ending → Type 0
  IsUnfinished j [] os = ⊥
  IsUnfinished j (i ∷ faults) [] = ⊥
  IsUnfinished j (i ∷ faults) (o ∷ os) =
      ((tag_of i ≡ j) × (o ≢ returned)) ⊎ IsUnfinished j faults os

  none_unfinished :
      (j : String) (faults : List (Injector F)) (os : List Ending)
      → All (λ o. o ≡ returned) os
      → IsUnfinished j faults os
      → ⊥
  none_unfinished j [] os all u = u
  none_unfinished j (i ∷ faults) [] all u = u
  none_unfinished j (i ∷ faults) (o ∷ os) all (inl u) = u.1 all.0
  none_unfinished j (i ∷ faults) (o ∷ os) all (inr u) = none_unfinished j faults os all.1 u

module _ {F : Floats} (tc_path : String) (host : Option ℕ → Host F) where
  injector-Leaves : (i : Injector F) → Leaves (tag_of i) false (injector_go tc_path host i)
  unfolding injector_go
  injector-Leaves (link i) = link-Leaves tc_path i
  injector-Leaves (node i) = node-Leaves i (host i.target_process_pid)
  injector-Leaves (multi i) = multi-Leaves i

  others-IsOther :
      (j : String) (faults : List (Injector F)) {trace : List (Event F)} {os : List Ending}
      → Together (map (injector_go tc_path host) faults) trace os
      → All (λ k. tag_of k ≢ j) faults
      → All (IsOther j) trace
  others-IsOther j [] nobody differ = tt
  others-IsOther j (i ∷ faults) (joined p t m) differ =
      Merge-All (IsOther j) m
        (own-IsOther (tag_of i) j _ differ.0 (Part-IsOwn (tag_of i) (injector-Leaves i) p))
        (others-IsOther j faults t differ.1)

  -- The first injector's own tag
  self_unfinished :
      (i : Injector F) (faults : List (Injector F)) {es rest trace : List (Event F)} {o : Ending}
      {os : List Ending}
      → All (λ k. tag_of k ≢ tag_of i) faults
      → Part (injector_go tc_path host i) es o
      → Together (map (injector_go tc_path host) faults) rest os
      → Merge es rest trace
      → marked_after_all (tag_of i) false trace ≡ true
      → o ≢ returned
  self_unfinished i faults differ p t m h = elim (Part-cleared (tag_of i) (injector-Leaves i) p) [
    | inr ne ↦ ne
    | inl cleared ↦
        let same =
          marked_after_all-Merge (tag_of i) false m (others-IsOther (tag_of i) faults t differ) in
        absurd (cc (h, same, cleared))
  ]

  marked-IsUnfinished :
      (j : String) (faults : List (Injector F)) {trace : List (Event F)} {os : List Ending}
      → HasOwnTags faults
      → Together (map (injector_go tc_path host) faults) trace os
      → marked_after_all j false trace ≡ true
      → IsUnfinished j faults os
  marked-IsUnfinished j [] own nobody h = absurd cc
  marked-IsUnfinished j (i ∷ faults) own (joined {trace = trace} p t m) h =
      elim (Bool-cases (str_eq (tag_of i) j)) [
        | inl same ↦
            let e = (eq_iff (tag_of i) j).0 same in
            inl (
              e,
              self_unfinished i faults own.0 p t m
                  (subst (λ x. marked_after_all x false trace ≡ true) (sym e) h),
            )
        | inr other ↦
            let ne : tag_of i ≢ j = λ e. cc (other, (eq_iff (tag_of i) j).1 e) in
            let mine =
              own-IsOther (tag_of i) j _ ne (Part-IsOwn (tag_of i) (injector-Leaves i) p) in
            inr (
              marked-IsUnfinished j faults own.1 t
                (sym (marked_after_all-Merge j false (Merge-flip m) mine) ∙ h))
      ]

  -- Of injectors that run together from an empty table, each under a tag of its own, in whatever
  -- interleaving and however each of them ends: a fault that is active when all have ended is that of
  -- an injector that has raised or was cancelled.
  pub leftovers-IsUnfinished :
      (j : String) (faults : List (Injector F)) (shell : Shell) (history : List String)
      (trace : List (Event F)) (os : List Ending)
      → HasOwnTags faults
      → Together (map (injector_go tc_path host) faults) trace os
      → is_marked j (perform_all shell (record { active = []; history = history }) trace).active
        ≡ true
      → IsUnfinished j faults os
  unfolding is_marked lookup
  leftovers-IsUnfinished j faults shell history trace os own t h =
      let w : World = record { active = []; history = history } in
      marked-IsUnfinished j faults own t (sym (is_marked-perform_all j shell w trace) ∙ h)

  unmarked_empty : (d : ActiveFaults) → ((j : String) → is_marked j d ≡ false) → d ≡ []
  unfolding is_marked lookup
  unmarked_empty [] h = refl
  unmarked_empty ((k, e) ∷ d) h = absurd (ground (arith, h k, eq_iff k k))

  -- Whatever faults a controller has, each under a tag of its own, and whatever their interleaving: a
  -- run of `go` from an empty table of active faults that reports the end leaves the table empty.
  pub reported_run_empties :
      (faults : List (Injector F)) (shell : Shell) (history : List String) (trace : List (Event F))
      → HasOwnTags faults
      → Go tc_path host faults trace (ok tt)
      → (perform_all shell (record { active = []; history = history }) trace).active ≡ []
  reported_run_empties faults shell history trace own (reports {os = os} t all) =
      let w : World = record { active = []; history = history } in
      unmarked_empty (perform_all shell w trace).active λ j.
        elim (Bool-cases (is_marked j (perform_all shell w trace).active)) [
          | inr absent ↦ absent
          | inl marked ↦ absurd (
              none_unfinished j faults os all
                (leftovers-IsUnfinished j faults shell history trace os own t marked))
        ]
