-- ===== src/Controllers/ConfigFile/Defaults.antt =====
-- What becomes of the times that a configuration leaves out: `None` reaches the injectors.
use Prim.Native.Char.{Char}
use faultynet.Shared.{
  ℕ, Bool, String, ◌≡◌, Option, none, some, List, [], All, Result, ok, err, type_error, traverse,
  ◌>>=◌, Result-cases, inl, inr, ok-injective, err-ne-ok,
}
use mathlib.Core.Path.{subst}
use faultynet.Values.{Floats, null, to_float}
use faultynet.Injectors.Script.{sleep}
use faultynet.Injectors.Link
use faultynet.Injectors.Node
use faultynet.Injectors.Node.{Host}
use faultynet.Injectors.Multi
use faultynet.Injectors.Multi.{Json, build_start_command}
use faultynet.Controllers.Identifiers.{Target}
use faultynet.Controllers.Targets.{Targets, get_target_arguments}
use faultynet.Controllers.Traversal.{traverse-All}
use faultynet.Controllers.ConfigFile.Gathering.{injector_go}
use faultynet.Controllers.ConfigFile.{
  FaultDict, Injector, Kind, link_fault, node_fault, multi_fault, items_of, kind_of, link_injector,
  node_injector, multi_injector, actual_tag, injectors_of_kind, injectors_of_type, injectors_of,
}

module _ {F : Floats} (tc_path : String) (host : Option ℕ → Host F) where
  -- The run of the injector ends at once with a TypeError and has no effect.
  abbrev pub FailsAtOnce : Injector F → Type 0
  FailsAtOnce i = injector_go tc_path host i ≡ record { events = []; result = err type_error }

  link_fails :
      (json : Json) (d : FaultDict F Target) (tag : String) (t : Targets F) (s : String)
      (x : Target) (i : Injector F)
      → d.pre_injection_time ≡ null
      → link_injector json d tag t s x ≡ ok i
      → FailsAtOnce i
  unfolding link_injector injector_go
  link_fails json d tag t s x i missing h = elim (Result-cases (actual_tag tag x)) [
    | inr (x', e) ↦ absurd (err-ne-ok (rw e at h))
    | inl (full, e) ↦
        subst FailsAtOnce (ok-injective (rw e at h))
          (unfold Link.do_injection to_float in rw missing)
  ]

  node_fails :
      (json : Json) (d : FaultDict F Target) (tag : String) (t : Targets F) (s : String)
      (x : Target) (i : Injector F)
      → d.pre_injection_time ≡ null
      → node_injector json d tag t s x ≡ ok i
      → FailsAtOnce i
  unfolding node_injector injector_go
  node_fails json d tag t s x i missing h = elim (Result-cases (actual_tag tag x)) [
    | inr (x', e) ↦ absurd (err-ne-ok (rw e at h))
    | inl (full, e) ↦
        subst FailsAtOnce (ok-injective (rw e at h)) (unfold Node.do_injection sleep in rw missing)
  ]

  multi_fails :
      (json : Json) (d : FaultDict F Target) (tag : String) (t : Targets F) (x : Target)
      (i : Injector F)
      → d.pre_injection_time ≡ null
      → multi_injector json d tag t x ≡ ok i
      → FailsAtOnce i
  unfolding multi_injector injector_go
  multi_fails json d tag t x i missing h = elim (Result-cases (actual_tag tag x)) [
    | inr (x', e) ↦ absurd (err-ne-ok (rw e at h))
    | inl (full, e) ↦ elim (Result-cases (build_start_command json d.tc_config)) [
      | inr (x', e') ↦ absurd (err-ne-ok (rw (e, e') at h))
      | inl (cs, e') ↦
          subst FailsAtOnce (ok-injective (rw (e, e') at h))
            (unfold Multi.do_injection sleep in rw missing)
    ]
  ]

  items_fail :
      (f : Target → Result (Injector F)) (o : Option (List Target)) (is : List (Injector F))
      → ((x : Target) (i : Injector F) → f x ≡ ok i → FailsAtOnce i)
      → (items_of o >>= traverse f) ≡ ok is
      → All FailsAtOnce is
  items_fail f none is step h = absurd (err-ne-ok h)
  items_fail f (some xs) is step h = traverse-All f FailsAtOnce step xs is h

  kind_fails :
      (is_word : Char → Bool) (json : Json) (d : FaultDict F Target) (tag : String) (t : Targets F)
      (k : Option Kind) (is : List (Injector F))
      → d.pre_injection_time ≡ null
      → injectors_of_kind is_word json d tag t k ≡ ok is
      → All FailsAtOnce is
  unfolding injectors_of_kind
  kind_fails is_word json d tag t none is missing h = subst (All FailsAtOnce) (ok-injective h) tt
  kind_fails is_word json d tag t (some (link_fault s)) is missing h =
      items_fail _ d.identifiers is (λ x i. link_fails json d tag t s x i missing) h
  kind_fails is_word json d tag t (some (node_fault s)) is missing h =
      items_fail _ d.identifiers is (λ x i. node_fails json d tag t s x i missing) h
  kind_fails is_word json d tag t (some multi_fault) is missing h =
      items_fail _ d.identifiers is (λ x i. multi_fails json d tag t x i missing) h

  type_fails :
      (is_word : Char → Bool) (json : Json) (d : FaultDict F Target) (tag : String) (t : Targets F)
      (o : Option String) (is : List (Injector F))
      → d.pre_injection_time ≡ null
      → injectors_of_type is_word json d tag t o ≡ ok is
      → All FailsAtOnce is
  type_fails is_word json d tag t none is missing h = subst (All FailsAtOnce) (ok-injective h) tt
  type_fails is_word json d tag t (some s) is missing h =
      kind_fails is_word json d tag t (kind_of is_word s) is missing h

  -- Every injector of a fault whose configuration gives no time before the injection fails at once,
  -- whatever its type: its run has no effect and ends with a TypeError.
  pub injectors_fail :
      (is_word : Char → Bool) (json : Json) (d : FaultDict F Target) (uuid : String)
      (is : List (Injector F))
      → d.pre_injection_time ≡ null
      → injectors_of is_word json d uuid ≡ ok is
      → All FailsAtOnce is
  unfolding injectors_of
  injectors_fail is_word json d uuid is missing h =
      elim (Result-cases (get_target_arguments d.target_traffic)) [
        | inr (x, e) ↦ absurd (err-ne-ok (rw e at h))
        | inl (t, e) ↦ type_fails is_word json d _ t d.fault_type is missing (rw e at h)
      ]
