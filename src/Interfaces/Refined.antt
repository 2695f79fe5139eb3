-- ===== src/Interfaces/Refined.antt =====
-- The tables of a node's interfaces do what they promise.
use faultynet.Shared.{
  ℕ, ◌==◌, ◌≡◌, inl, inr, refl, ap, String, str_eq, eq_iff, none, some, lookup, at, at-remove,
  lookup-insert, lookup-erase, Option-cases, insert, remove, erase, ok, arith, Bool-cases,
}
use faultynet.Interfaces.{Tables, new_port, set_name, new_intf, add_intf, del_intf, rename}
use faultynet.Interfaces.Spec.{
  Wiring, attach, detach, Represents, Op, add, delete, rename_to, perform, IsPermitted, IsFreeName,
  Step,
}
use faultynet.Interfaces.Attached.{attach-Represents, new_port-IsFreePort}

module _ (t : Tables) (s : Wiring) (r : Represents t s) (i p : ℕ) (n : String)
    (held : s i ≡ some (p, n)) where
  abbrev dropped : Tables
  dropped = record t {
    intfs = remove p t.intfs;
    ports = remove i t.ports;
    name_to_intf = erase n t.name_to_intf;
  }

  del_intf-dropped : del_intf i t ≡ ok dropped
  unfolding del_intf
  del_intf-dropped = ground (arith, r.wired i p n held)

  drop-Represents : Represents dropped (detach i s)
  drop-Represents = record {
    wired = λ j q m e. ground (
      arith,
      r.wired j q m,
      r.wired i p n held,
      at-remove i j t.ports,
      at-remove p q t.intfs,
      lookup-erase n m t.name_to_intf,
      eq_iff n m,
    );
    by_port = λ q j e.
        let old : at q t.intfs ≡ some j = ground (arith, at-remove p q t.intfs, e) in
        let (m, h) = r.by_port q j old in (m, ground (arith, at-remove p q t.intfs, e, h, held));
    by_name = λ m j e.
        let old : lookup m t.name_to_intf ≡ some j =
          ground (arith, eq_iff n m, lookup-erase n m t.name_to_intf, e) in
        let (q, h) = r.by_name m j old in
        (q, ground (arith, eq_iff n m, lookup-erase n m t.name_to_intf, e, h, held));
    by_intf = λ j q e.
        let old : at j t.ports ≡ some q = ground (arith, at-remove i j t.ports, e) in
        let (m, h) = r.by_intf j q old in (m, ground (arith, at-remove i j t.ports, e, h));
  }

module _ (t : Tables) (s : Wiring) (r : Represents t s) where
  not_wired : (i : ℕ) → s i ≡ none → (del_intf i t ≡ ok t) × Represents t (detach i s)
  unfolding del_intf
  not_wired i none_held = (
    elim (Option-cases (at i t.ports)) [
      | inl e ↦ ground (arith, e)
      | inr (p, e) ↦ let (n, h) = r.by_intf i p e in absurd (ground (arith, h, none_held))
    ],
    record {
      wired = λ j q m e. r.wired j q m (ground (arith, e));
      by_port = λ q j e. let (m, h) = r.by_port q j e in (m, ground (arith, h, none_held));
      by_name = λ m j e. let (q, h) = r.by_name m j e in (q, ground (arith, h, none_held));
      by_intf = λ j q e. let (m, h) = r.by_intf j q e in (m, ground (arith, h, none_held));
    },
  )

module _ (t : Tables) (s : Wiring) (r : Represents t s) (i p : ℕ) (old n : String)
    (held : s i ≡ some (p, old)) (free_name : IsFreeName n s) where
  abbrev renamed_tables : Tables
  renamed_tables = record t {
    name_to_intf = insert n i (erase old t.name_to_intf);
    name_of = set_name i n t.name_of;
  }

  rename-renamed : rename i n t ≡ renamed_tables
  unfolding rename
  rename-renamed = ground (arith, r.wired i p old held)

  renamed-Represents : Represents renamed_tables (attach i p n s)
  renamed-Represents = record {
    wired = λ j q m e. ground (
      arith,
      r.wired j q m,
      r.wired i p old held,
      free_name j q m,
      lookup-erase old m t.name_to_intf,
      eq_iff n m,
      eq_iff old m,
      lookup-insert n m i (erase old t.name_to_intf),
    );
    by_port = λ q j e. elim (Bool-cases (i == j)) [
      | inl same ↦ let (m, h) = r.by_port q j e in (n, ground (arith, h, held, same))
      | inr other ↦ let (m, h) = r.by_port q j e in (m, ground (arith, h, other))
    ];
    by_name = λ m j e. elim (Bool-cases (str_eq n m)) [
      | inl same ↦
          (p, ground (arith, eq_iff n m, lookup-insert n m i (erase old t.name_to_intf), e, same))
      | inr other ↦
          let kept : lookup m t.name_to_intf ≡ some j = ground (
            arith,
            eq_iff n m,
            eq_iff old m,
            lookup-erase old m t.name_to_intf,
            lookup-insert n m i (erase old t.name_to_intf),
            e,
            other,
          ) in
          let (q, h) = r.by_name m j kept in
          (
            q,
            ground (
              arith,
              eq_iff n m,
              eq_iff old m,
              lookup-erase old m t.name_to_intf,
              lookup-insert n m i (erase old t.name_to_intf),
              e,
              other,
              h,
              held,
            ),
          )
    ];
    by_intf = λ j q e. elim (Bool-cases (i == j)) [
      | inl same ↦ (n, ground (arith, r.wired i p old held, e, same))
      | inr other ↦ let (m, h) = r.by_intf j q e in (m, ground (arith, h, other))
    ];
  }

asked_none :
    (port_base i : ℕ) (n : String) (t : Tables)
    → new_intf port_base i n none t ≡ new_intf port_base i n (some (new_port port_base t.ports)) t
unfolding new_intf add_intf
asked_none port_base i n t = refl

-- Where the specification permits an operation, tables that represent a wiring are changed by it,
-- without an error, to tables that represent a wiring which the specification steps to.
pub tables_refine_wiring :
    (port_base : ℕ) (op : Op) (t : Tables) (s : Wiring)
    → Represents t s
    → IsPermitted op s
    → (t1 : Tables) × (s1 : Wiring) × (perform port_base op t ≡ ok t1)
      × Step s op s1
      × Represents t1 s1
tables_refine_wiring port_base (add i n none) t s r (new, free) =
    let p = new_port port_base t.ports in
    let free_port = new_port-IsFreePort t s r port_base in
    (
      new_intf port_base i n (some p) t,
      attach i p n s,
      ap ok (asked_none port_base i n t),
      Step.attached i p n none free_port (inl refl),
      attach-Represents t s r i p n new free free_port port_base,
    )
tables_refine_wiring port_base (add i n (some p)) t s r (new, free, free_port) = (
  new_intf port_base i n (some p) t,
  attach i p n s,
  refl,
  Step.attached i p n (some p) free_port (inr refl),
  attach-Represents t s r i p n new free free_port port_base,
)
tables_refine_wiring port_base (delete i) t s r tt = elim (Option-cases (s i)) [
  | inl e ↦ let (same, still) = not_wired t s r i e in (t, detach i s, same, Step.detached i, still)
  | inr ((p, n), e) ↦ (
    dropped t s r i p n e,
    detach i s,
    del_intf-dropped t s r i p n e,
    Step.detached i,
    drop-Represents t s r i p n e,
  )
]
tables_refine_wiring port_base (rename_to i n) t s r ((p, old, held), free) = (
  renamed_tables t s r i p old n held free,
  attach i p n s,
  ap ok (rename-renamed t s r i p old n held free),
  Step.renamed i p old n held,
  renamed-Represents t s r i p old n held free,
)
