-- ===== src/Interfaces/Order.antt =====
-- The order in which a node lists its interfaces (mininet/node.py).
use faultynet.Shared.{
  ℕ, ◌≤◌, ◌==◌, ◌≡◌, ◌↔◌, refl, sym, ap, ◌∙◌, false, ◌||◌, Option, none, List, [], ◌∷◌, any, at,
  Numbered, arith, leb, Bool-cases, inl, inr,
}
use faultynet.Interfaces.{
  Tables, least, lowest, default_intf, insert_sorted, sorted_keys, intfs_at, intf_list,
}

-- Each number is at least the one before it.
abbrev pub IsAscending : List ℕ → Type 0
IsAscending [] = Unit
IsAscending (k ∷ []) = Unit
IsAscending (k ∷ j ∷ ks) = (k ≤ j) × IsAscending (j ∷ ks)

insert-IsAscending : (k : ℕ) (ks : List ℕ) → IsAscending ks → IsAscending (insert_sorted k ks)
unfolding insert_sorted
insert-IsAscending k [] h = tt
insert-IsAscending k (j ∷ []) h = ground arith
insert-IsAscending k (j ∷ i ∷ ks) h = ground (arith, insert-IsAscending k (i ∷ ks) h.1)

sorted-IsAscending : {V : Type 0} (d : Numbered V) → IsAscending (sorted_keys d)
unfolding sorted_keys
sorted-IsAscending [] = tt
sorted-IsAscending ((k, v) ∷ d) = insert-IsAscending k (sorted_keys d) (sorted-IsAscending d)

any-insert :
    (k j : ℕ) (ks : List ℕ)
    → any (λ i. i == j) (insert_sorted k ks) ≡ ((k == j) || any (λ i. i == j) ks)
unfolding insert_sorted
any-insert k j [] = refl
any-insert k j (i ∷ ks) = ground (arith, any-insert k j ks)

any-sorted :
    {V : Type 0} (j : ℕ) (d : Numbered V)
    → (any (λ i. i == j) (sorted_keys d) ≡ false) ↔ (at j d ≡ none)
unfolding sorted_keys at
any-sorted j [] = ground arith
any-sorted j ((k, v) ∷ d) = ground (arith, any-insert k j (sorted_keys d), any-sorted j d)

least-first :
    {V : Type 0} (k : ℕ) (v : V) (d : Numbered V)
    → (rest : List ℕ) × (sorted_keys ((k, v) ∷ d) ≡ least k d ∷ rest)
unfolding sorted_keys insert_sorted least
least-first k v [] = ([], refl)
least-first k v ((j, w) ∷ d) =
    let (rest, e) = least-first j w d in
    elim (Bool-cases (leb k (least j d))) [
      | inl le ↦ (least j d ∷ rest, ap (insert_sorted k) e ∙ ground (arith, le))
      | inr gt ↦ (insert_sorted k rest, ap (insert_sorted k) e ∙ ground (arith, gt))
    ]

abbrev pub first : List (Option ℕ) → Option ℕ
first [] = none
first (i ∷ l) = i

first_of :
    (d : Numbered ℕ) (ports rest : List ℕ) (k : ℕ)
    → ports ≡ k ∷ rest
    → first (intfs_at d ports) ≡ at k d
unfolding intfs_at
first_of d ports rest k e = ap (λ l. first (intfs_at d l)) e

lowest-first : (d : Numbered ℕ) → lowest d ≡ first (intfs_at d (sorted_keys d))
unfolding intfs_at sorted_keys
lowest-first [] = refl
lowest-first ((k, v) ∷ d) =
    let (rest, e) = least-first k v d in
    sym (first_of ((k, v) ∷ d) (sorted_keys ((k, v) ∷ d)) rest (least k d) e)

default-first : (t : Tables) → default_intf t ≡ first (intf_list t)
unfolding default_intf intf_list
default-first t = lowest-first t.intfs

-- The interfaces are listed by ascending ports, each port in use among them and no other, and the
-- default interface is the first of the list; where there is none, both are nothing.
intf_list_in_order :
    (t : Tables)
    → IsAscending (sorted_keys t.intfs)
      × ((port : ℕ)
          → (any (λ i. i == port) (sorted_keys t.intfs) ≡ false) ↔ (at port t.intfs ≡ none))
      × (default_intf t ≡ first (intf_list t))
intf_list_in_order t =
    (sorted-IsAscending t.intfs, λ port. any-sorted port t.intfs, default-first t)
