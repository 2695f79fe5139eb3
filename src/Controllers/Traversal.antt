-- ===== src/Controllers/Traversal.antt =====
-- What holds of the results of a loop that may raise.
use faultynet.Shared.{
  ◌≡◌, ap, ok-injective, err-ne-ok, List, [], ◌∷◌, map, All, Result, ok, Result-cases, traverse,
  inl, inr, sym, ◌∙◌,
}
use mathlib.Core.Path.{subst}

module _ {A B : Type 0} (f : A → Result B) where
  -- The value of a loop's round and the values of the rest.
  traverse_parts :
      (x : A) (xs : List A) (ys : List B)
      → traverse f (x ∷ xs) ≡ ok ys
      → (y : B) × (zs : List B) × (f x ≡ ok y) × (traverse f xs ≡ ok zs) × (y ∷ zs ≡ ys)
  traverse_parts x xs ys h = elim (Result-cases (f x)) [
    | inl (y, e) ↦ elim (Result-cases (traverse f xs)) [
      | inl (zs, e') ↦ (y, zs, e, e', ok-injective (rw (e, e') at h))
      | inr (x', e') ↦ absurd (err-ne-ok (rw (e, e') at h))
    ]
    | inr (x', e) ↦ absurd (err-ne-ok (rw e at h))
  ]

  pub traverse-All :
      (P : B → Type 0)
      → ((x : A) (y : B) → f x ≡ ok y → P y)
      → (xs : List A) (ys : List B) → traverse f xs ≡ ok ys
      → All P ys
  traverse-All P step [] ys h = subst (All P) (ok-injective h) tt
  traverse-All P step (x ∷ xs) ys h =
      let (y, zs, e, e', q) = traverse_parts x xs ys h in
      subst (All P) q (step x y e, traverse-All P step xs zs e')

  -- What a reading of the results is, where it is known of each result.
  pub map-traverse :
      {C : Type 0} (g : B → C) (h : A → C)
      → ((x : A) (y : B) → f x ≡ ok y → g y ≡ h x)
      → (xs : List A) (ys : List B) → traverse f xs ≡ ok ys
      → map g ys ≡ map h xs
  map-traverse g h step [] ys e = ap (map g) (sym (ok-injective e))
  map-traverse g h step (x ∷ xs) ys e =
      let (y, zs, here, there, q) = traverse_parts x xs ys e in
      ap (map g) (sym q)
      ∙ ap (λ z. z ∷ map g zs) (step x y here)
      ∙ ap (λ l. h x ∷ l) (map-traverse g h step xs zs there)
