-- ===== src/Topology/Trees/Nodes.antt =====
-- The nodes of a tree that is being built, by their numbers.
use Prim.Native.Char.{code}
use Prim.Native.String.append
use mathlib.Core.Option.{some-injective}
use faultynet.Shared.{
  ℕ, ◌+◌, ◌≤◌, ◌<◌, ◌==◌, ◌≡◌, ◌≢◌, ◌⊎◌, refl, ap, sym, ◌∙◌, arith, Bool, true, false, Bool-cases,
  inl, inr, none, some, String, ◌<>◌, str_eq, eq_iff, show_ℕ, show_ℤ, int_of_text, ℤ, pos, negsuc,
  lookup, lookup-insert, ok, if◌then◌else◌, [],
}
use faultynet.Shared.Text.Decimal.{int-show_ℤ}
use faultynet.Topology.Known.{IsKnown}
use faultynet.Topology.{Topo, add_host, add_switch, is_switch}
use faultynet.Topology.Trees.{TreeTopo, numbered}

-- One of the names that a prefix and a number from 1 to below `k` make.
abbrev pub Within : String → ℕ → String → Type 0
Within p k n = (m : ℕ) × (1 ≤ m) × (m < k) × (n ≡ numbered p m)

-- The hosts are numbered from 1 to below host_num, and the switches from 1 to below switch_num; there
-- are no other nodes.
pub record IsNumbered (t : TreeTopo) : Type 0 where
  pub first_host : 1 ≤ t.host_num
  pub first_switch : 1 ≤ t.switch_num
  pub host_kinds : (m : ℕ) → 1 ≤ m → m < t.host_num → is_switch (numbered "h" m) t.topo ≡ ok false
  pub switch_kinds :
      (m : ℕ) → 1 ≤ m → m < t.switch_num → is_switch (numbered "s" m) t.topo ≡ ok true
  pub only : (n : String) → IsKnown n t.topo → Within "h" t.host_num n ⊎ Within "s" t.switch_num n

abbrev first_code : String → ℕ
first_code String.[] = 0
first_code (String.◌∷◌ c s) = code c

abbrev drop_first : String → String
drop_first String.[] = ""
drop_first (String.◌∷◌ c s) = s

host_name : (m : ℕ) → numbered "h" m ≡ String.◌∷◌ "h" (show_ℕ m)
unfolding faultynet.Shared.cat
host_name m = append.cons "h" "" (show_ℕ m) ∙ ap (λ s. String.◌∷◌ "h" s) (append.nil (show_ℕ m))

switch_name : (m : ℕ) → numbered "s" m ≡ String.◌∷◌ "s" (show_ℕ m)
unfolding faultynet.Shared.cat
switch_name m = append.cons "s" "" (show_ℕ m) ∙ ap (λ s. String.◌∷◌ "s" s) (append.nil (show_ℕ m))

kinds_differ : (m k : ℕ) → numbered "h" m ≢ numbered "s" k
kinds_differ m k e =
    let codes : 104 ≡ 115 = ap first_code (sym (host_name m) ∙ e ∙ switch_name k) in
    omega (arith, codes)

abbrev whole_number : ℤ → ℕ
whole_number (pos n) = n
whole_number (negsuc n) = 0

show_ℕ_inj : (m k : ℕ) → show_ℕ m ≡ show_ℕ k → m ≡ k
unfolding show_ℤ
show_ℕ_inj m k e = ap whole_number (
    some-injective (pos m) (pos k)
      (sym (int-show_ℤ (pos m)) ∙ ap int_of_text e ∙ int-show_ℤ (pos k)))

-- Different numbers give different names.
pub host_numbers : (m k : ℕ) → numbered "h" m ≡ numbered "h" k → m ≡ k
host_numbers m k e =
    let same : show_ℕ m ≡ show_ℕ k = ap drop_first (sym (host_name m) ∙ e ∙ host_name k) in
    show_ℕ_inj m k same

pub switch_numbers : (m k : ℕ) → numbered "s" m ≡ numbered "s" k → m ≡ k
switch_numbers m k e =
    let same : show_ℕ m ≡ show_ℕ k = ap drop_first (sym (switch_name m) ∙ e ∙ switch_name k) in
    show_ℕ_inj m k same

kind-add_host :
    (name n : String) (t : Topo)
    → is_switch n (add_host name [] t) ≡ (if str_eq name n then ok false else is_switch n t)
unfolding is_switch add_host
kind-add_host name n t = elim (Bool-cases (str_eq name n)) [
  | inl same ↦ rw (is_switch, lookup-insert name n _ t.g.node, same) refl
  | inr other ↦ rw (is_switch, lookup-insert name n _ t.g.node, other) refl
]

kind-add_switch :
    (name n : String) (t : Topo)
    → is_switch n (add_switch name [] t) ≡ (if str_eq name n then ok true else is_switch n t)
unfolding is_switch add_switch
kind-add_switch name n t = elim (Bool-cases (str_eq name n)) [
  | inl same ↦ rw (is_switch, lookup-insert name n _ t.g.node, same) refl
  | inr other ↦ rw (is_switch, lookup-insert name n _ t.g.node, other) refl
]

new_or_old_host :
    (name n : String) (t : Topo) → IsKnown n (add_host name [] t) → (n ≡ name) ⊎ IsKnown n t
unfolding add_host
new_or_old_host name n t (v, h) = elim (Bool-cases (str_eq name n)) [
  | inl same ↦ inl (sym ((eq_iff name n).0 same))
  | inr other ↦ inr (v, rw (lookup-insert name n _ t.g.node, other) at h)
]

new_or_old_switch :
    (name n : String) (t : Topo) → IsKnown n (add_switch name [] t) → (n ≡ name) ⊎ IsKnown n t
unfolding add_switch
new_or_old_switch name n t (v, h) = elim (Bool-cases (str_eq name n)) [
  | inl same ↦ inl (sym ((eq_iff name n).0 same))
  | inr other ↦ inr (v, rw (lookup-insert name n _ t.g.node, other) at h)
]

wider : (p : String) (k : ℕ) (n : String) → Within p k n → Within p (k + 1) n
wider p k n (m, low, high, e) = (m, low, omega (arith, high), e)

clash : (b : Bool) → b ≡ true → b ≡ false → ⊥
clash b h h' = ground (arith, h, h')

no_eq : (a b : String) → a ≢ b → str_eq a b ≡ false
no_eq a b h = elim (Bool-cases (str_eq a b)) [
  | inl same ↦ absurd (h ((eq_iff a b).0 same))
  | inr other ↦ other
]

module _ (t : TreeTopo) (ok_t : IsNumbered t) where
  abbrev new_host : String
  new_host = numbered "h" t.host_num

  abbrev new_switch : String
  new_switch = numbered "s" t.switch_num

  -- With the next host.
  pub hosted-IsNumbered :
      IsNumbered (record t {
        topo = add_host (numbered "h" t.host_num) [] t.topo;
        host_num = t.host_num + 1;
      })
  hosted-IsNumbered = record {
    first_host = omega (arith, ok_t.first_host);
    first_switch = ok_t.first_switch;
    host_kinds = λ m low high. elim (Bool-cases (str_eq new_host (numbered "h" m))) [
      | inl same ↦ kind-add_host new_host (numbered "h" m) t.topo ∙ rw same refl
      | inr other ↦
          let older : m ≢ t.host_num = λ e.
            clash (str_eq new_host (numbered "h" m))
              ((eq_iff new_host (numbered "h" m)).1 (ap (numbered "h") (sym e))) other in
          kind-add_host new_host (numbered "h" m) t.topo
          ∙ rw other (ok_t.host_kinds m low (omega (arith, high, older)))
    ];
    switch_kinds = λ m low high.
        let other = no_eq new_host (numbered "s" m) (kinds_differ t.host_num m) in
        kind-add_host new_host (numbered "s" m) t.topo ∙ rw other (ok_t.switch_kinds m low high);
    only = λ n k. elim (new_or_old_host new_host n t.topo k) [
      | inl e ↦ inl (t.host_num, ok_t.first_host, omega arith, e)
      | inr old ↦ elim (ok_t.only n old) [ inl h ↦ inl (wider "h" t.host_num n h) | inr s ↦ inr s ]
    ];
  }

  -- With the next switch.
  pub switched-IsNumbered : IsNumbered (record t {
    topo = add_switch (numbered "s" t.switch_num) [] t.topo;
    switch_num = t.switch_num + 1;
  })
  switched-IsNumbered = record {
    first_host = ok_t.first_host;
    first_switch = omega (arith, ok_t.first_switch);
    switch_kinds = λ m low high. elim (Bool-cases (str_eq new_switch (numbered "s" m))) [
      | inl same ↦ kind-add_switch new_switch (numbered "s" m) t.topo ∙ rw same refl
      | inr other ↦
          let older : m ≢ t.switch_num = λ e.
            clash (str_eq new_switch (numbered "s" m))
              ((eq_iff new_switch (numbered "s" m)).1 (ap (numbered "s") (sym e))) other in
          kind-add_switch new_switch (numbered "s" m) t.topo
          ∙ rw other (ok_t.switch_kinds m low (omega (arith, high, older)))
    ];
    host_kinds = λ m low high.
        let other = no_eq new_switch (numbered "h" m) (λ e. kinds_differ m t.switch_num (sym e)) in
        kind-add_switch new_switch (numbered "h" m) t.topo ∙ rw other (ok_t.host_kinds m low high);
    only = λ n k. elim (new_or_old_switch new_switch n t.topo k) [
      | inl e ↦ inr (t.switch_num, ok_t.first_switch, omega arith, e)
      | inr old ↦ elim (ok_t.only n old) [
        | inl h ↦ inl h
        | inr s ↦ inr (wider "s" t.switch_num n s)
      ]
    ];
  }

  -- With another topology of the same nodes.
  pub same-IsNumbered :
      (topo : Topo) → topo.g.node ≡ t.topo.g.node → IsNumbered (record t { topo = topo })
  unfolding is_switch
  same-IsNumbered topo e = record {
    first_host = ok_t.first_host;
    first_switch = ok_t.first_switch;
    host_kinds = λ m low high. rw e (ok_t.host_kinds m low high);
    switch_kinds = λ m low high. rw e (ok_t.switch_kinds m low high);
    only = λ n k. ok_t.only n (rw e at k);
  }
