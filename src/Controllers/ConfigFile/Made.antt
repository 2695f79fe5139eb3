-- ===== src/Controllers/ConfigFile/Made.antt =====
-- Which injectors a configuration gives.
use Prim.Native.Char.{Char}
use mathlib.Core.List.{map-append}
use faultynet.Shared.{
  Bool, ℕ, suc, String, ◌≡◌, ap, sym, ◌∙◌, Option, none, some, Option-cases, List, [], ◌∷◌, ◌++◌,
  map, All, Result, ok, ◌>>=◌, traverse, Result-cases, inl, inr, ok-injective, err-ne-ok, cat,
}
use faultynet.Values.{Floats, Value}
use faultynet.Injectors.Multi.{Json, build_start_command}
use faultynet.Controllers.Identifiers.{Target}
use faultynet.Controllers.Targets.{Targets, get_target_arguments}
use faultynet.Controllers.Traversal.{map-traverse}
use faultynet.Controllers.ConfigFile.{
  FaultDict, Injector, link, node, multi, Kind, link_fault, node_fault, multi_fault, items_of,
  link_injector, node_injector, multi_injector, injectors_of_kind, injectors_of_type, injectors_of,
  config_by_file, or_default,
}
use faultynet.Controllers.ConfigFile.Kinds.{IsTyped, kind_of-typed}

-- What an injector is made with: its class and fault, and its fields; what a class does not have is
-- none.
pub record Made (F : Floats) : Type 0 where
  pub kind : Kind
  pub pid : Option ℕ
  pub interface : Option String
  pub tag : String
  pub pattern : String
  pub pattern_args : Option (List (Value F))
  pub args : Option (List (Value F))
  pub before : Value F
  pub during : Value F
  pub behind : Value F

-- Only the injector of a link has an interface.
abbrev interface_for : Kind → Target → Option String
interface_for (link_fault t) target = target.interface_name
interface_for _ target = none

abbrev targets_of_fault : Option (List Target) → List Target
targets_of_fault none = []
targets_of_fault (some ts) = ts

module _ {F : Floats} where
  abbrev pub made_of : Injector F → Made F
  made_of (link i) = record {
    kind = link_fault i.fault_type;
    pid = i.namespace_pid;
    interface = i.target_interface;
    tag = i.tag;
    pattern = i.fault_pattern;
    pattern_args = i.fault_pattern_args;
    args = i.fault_args;
    before = i.pre_injection_time;
    during = i.injection_time;
    behind = i.post_injection_time;
  }
  made_of (node i) = record {
    kind = node_fault i.fault_type;
    pid = i.target_process_pid;
    interface = none;
    tag = i.tag;
    pattern = i.fault_pattern;
    pattern_args = i.fault_pattern_args;
    args = i.fault_args;
    before = i.pre_injection_time;
    during = i.injection_time;
    behind = i.post_injection_time;
  }
  made_of (multi i) = record {
    kind = multi_fault;
    pid = i.target_process_pid;
    interface = none;
    tag = i.tag;
    pattern = i.fault_pattern;
    pattern_args = i.fault_pattern_args;
    args = none;
    before = i.pre_injection_time;
    during = i.injection_time;
    behind = i.post_injection_time;
  }

  -- A multi fault has no arguments.
  abbrev args_for : Kind → FaultDict F Target → Option (List (Value F))
  args_for multi_fault d = none
  args_for _ d = d.type_args

  -- The injector of a target of a fault: the fault's tag, or else the random one, comes before the
  -- identifier of the target.
  abbrev pub made_for : Kind → FaultDict F Target → String → Target → Made F
  made_for kind d uuid target = record {
    kind = kind;
    pid = target.process_group_id;
    interface = interface_for kind target;
    tag = cat (or_default d.tag uuid ∷ "@" ∷ or_default target.identifier_string "" ∷ []);
    pattern = or_default d.pattern "persistent";
    pattern_args = d.pattern_args;
    args = args_for kind d;
    before = d.pre_injection_time;
    during = d.injection_time;
    behind = d.post_injection_time;
  }

  abbrev made_for_fault : Option Kind → FaultDict F Target → String → List (Made F)
  made_for_fault none d uuid = []
  made_for_fault (some k) d uuid = map (made_for k d uuid) (targets_of_fault d.identifiers)

  -- The injectors of faults of given kinds, in order; a fault of no kind has none.
  abbrev pub expected : (ℕ → String) → ℕ → List (Option Kind × FaultDict F Target) → List (Made F)
  expected uuid i [] = []
  expected uuid i ((k, d) ∷ faults) =
      let rest = expected uuid (suc i) faults in made_for_fault k d (uuid i) ++ rest

module _ {F : Floats} (json : Json) (d : FaultDict F Target) (uuid : String) (t : Targets F)
    (target : Target) (i : Injector F) where
  link_made :
      (type : String)
      → link_injector json d (or_default d.tag uuid) t type target ≡ ok i
      → made_of i ≡ made_for (link_fault type) d uuid target
  unfolding link_injector
  link_made type h = elim (Option-cases target.identifier_string) [
    | inl absent ↦ absurd (err-ne-ok (rw absent at h))
    | inr (s, e) ↦ rw e (ap made_of (sym (ok-injective (rw e at h))))
  ]

  node_made :
      (type : String)
      → node_injector json d (or_default d.tag uuid) t type target ≡ ok i
      → made_of i ≡ made_for (node_fault type) d uuid target
  unfolding node_injector
  node_made type h = elim (Option-cases target.identifier_string) [
    | inl absent ↦ absurd (err-ne-ok (rw absent at h))
    | inr (s, e) ↦ rw e (ap made_of (sym (ok-injective (rw e at h))))
  ]

  multi_made :
      multi_injector json d (or_default d.tag uuid) t target ≡ ok i
      → made_of i ≡ made_for multi_fault d uuid target
  unfolding multi_injector
  multi_made h = elim (Option-cases target.identifier_string) [
    | inl absent ↦ absurd (err-ne-ok (rw absent at h))
    | inr (s, e) ↦ elim (Result-cases (build_start_command json d.tc_config)) [
      | inr (x, e') ↦ absurd (err-ne-ok (rw (e, e') at h))
      | inl (c, e') ↦ rw e (ap made_of (sym (ok-injective (rw (e, e') at h))))
    ]
  ]

items_made :
    {F : Floats} (f : Target → Result (Injector F)) (g : Target → Made F)
    → ((x : Target) (y : Injector F) → f x ≡ ok y → made_of y ≡ g x)
    → (o : Option (List Target)) (is : List (Injector F)) → (items_of o >>= traverse f) ≡ ok is
    → map made_of is ≡ map g (targets_of_fault o)
items_made f g step none is h = absurd (err-ne-ok h)
items_made f g step (some xs) is h = map-traverse f made_of g step xs is h

module _ {F : Floats} (is_word : Char → Bool) (json : Json) where
  fault_made :
      (k : Option Kind) (d : FaultDict F Target) (uuid : String) (t : Targets F)
      (is : List (Injector F))
      → injectors_of_kind is_word json d (or_default d.tag uuid) t k ≡ ok is
      → map made_of is ≡ made_for_fault k d uuid
  unfolding injectors_of_kind
  fault_made none d uuid t is h = ap (map made_of) (sym (ok-injective h))
  fault_made (some (link_fault type)) d uuid t is h =
      items_made _ _ (λ x y. link_made json d uuid t x y type) d.identifiers is h
  fault_made (some (node_fault type)) d uuid t is h =
      items_made _ _ (λ x y. node_made json d uuid t x y type) d.identifiers is h
  fault_made (some multi_fault) d uuid t is h =
      items_made _ _ (multi_made json d uuid t) d.identifiers is h

  type_made :
      (o : Option String) (k : Option Kind) (d : FaultDict F Target) (uuid : String) (t : Targets F)
      (is : List (Injector F))
      → IsTyped is_word k o
      → injectors_of_type is_word json d (or_default d.tag uuid) t o ≡ ok is
      → map made_of is ≡ made_for_fault k d uuid
  type_made none none d uuid t is typed h = ap (map made_of) (sym (ok-injective h))
  type_made none (some k) d uuid t is typed h = absurd typed
  type_made (some s) k d uuid t is typed h =
      fault_made k d uuid t is (rw (kind_of-typed is_word k s typed) at h)

  round_made :
      (k : Option Kind) (d : FaultDict F Target) (uuid : String) (is : List (Injector F))
      → IsTyped is_word k d.fault_type
      → injectors_of is_word json d uuid ≡ ok is
      → map made_of is ≡ made_for_fault k d uuid
  unfolding injectors_of
  round_made k d uuid is typed h = elim (Result-cases (get_target_arguments d.target_traffic)) [
    | inr (x, e) ↦ absurd (err-ne-ok (rw e at h))
    | inl (t, e) ↦ type_made d.fault_type k d uuid t is typed (rw e at h)
  ]

  -- A configuration whose faults are written as of given kinds, or of no type or one that begins
  -- with none of the three words, and that is read without an error: its injectors are, in order, one
  -- for each identifier of each fault of a kind. Each is of the class of its kind, with the fault
  -- behind the colon, on the identifier's process, and on its interface for a link fault; it has the
  -- fault's tag or else its random one before the identifier, its pattern or else "persistent", the
  -- arguments of the pattern and, unless it is a multi fault, of the fault, and the three times.
  pub made_of-config_by_file :
      (uuid : ℕ → String) (i : ℕ) (faults : List (Option Kind × FaultDict F Target))
      (is : List (Injector F))
      → All (λ (k, d). IsTyped is_word k d.fault_type) faults
      → config_by_file is_word json uuid i (map (λ (k, d). d) faults) ≡ ok is
      → map made_of is ≡ expected uuid i faults
  unfolding config_by_file
  made_of-config_by_file uuid i [] is typed h = ap (map made_of) (sym (ok-injective h))
  made_of-config_by_file uuid i ((k, d) ∷ faults) is typed h =
      let later = map (λ (k, d). d) faults in
      elim (Result-cases (injectors_of is_word json d (uuid i))) [
        | inr (x, e) ↦ absurd (err-ne-ok (rw e at h))
        | inl (first, e) ↦ elim (Result-cases (config_by_file is_word json uuid (suc i) later)) [
          | inr (x, e') ↦ absurd (err-ne-ok (rw (e, e') at h))
          | inl (others, e') ↦
              let here = round_made k d (uuid i) first typed.0 e in
              let there = made_of-config_by_file uuid (suc i) faults others typed.1 e' in
              ap (map made_of) (sym (ok-injective (rw (e, e') at h)))
              ∙ map-append made_of first others
              ∙ ap (λ l. l ++ map made_of others) here
              ∙ ap (λ l. made_for_fault k d (uuid i) ++ l) there
        ]
      ]
