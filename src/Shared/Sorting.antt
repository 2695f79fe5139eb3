-- ===== src/Shared/Sorting.antt =====
-- Python's order of texts and lists, and `sorted( items, key=... )`, which is stable.
use Prim.Native.Char.{code}
use Prim.Native.String.{String}
use mathlib.Core.Path.{◌≡◌, refl}
use mathlib.Core.Logic.{inl, inr}
use mathlib.Core.Bool.{Bool, true, false}
use mathlib.Core.List.{List, [], ◌∷◌, Perm}
use mathlib.Core.List.Perm
use native.Mathlib.Omega.{arith}
use text.Mathlib.TextEquality.{Char-path}
use faultynet.Shared.Lists.{All}
use faultynet.Shared.Tests.{ltb, ◌==◌, Bool-cases, if◌then◌else◌}

-- `s > t` of two texts: the code points decide.
unfoldable pub after : String → String → Bool
after String.[] t = false
after (String.◌∷◌ c s) String.[] = true
after (String.◌∷◌ c s) (String.◌∷◌ d t) =
    let rest = after s t in
    if ltb (code d) (code c) then true else if code c == code d then rest else false

pub after_asym : (s t : String) → after s t ≡ true → after t s ≡ false
unfolding after
after_asym String.[] t h = ground (arith, h)
after_asym (String.◌∷◌ c s) String.[] h = refl
after_asym (String.◌∷◌ c s) (String.◌∷◌ d t) h = ground (arith, after_asym s t)

pub after_total : (s t : String) → after s t ≡ false → after t s ≡ false → s ≡ t
unfolding after
after_total String.[] String.[] h h' = refl
after_total String.[] (String.◌∷◌ d t) h h' = ground (arith, h')
after_total (String.◌∷◌ c s) String.[] h h' = ground (arith, h)
after_total (String.◌∷◌ c s) (String.◌∷◌ d t) h h' = ground (arith, after_total s t, Char-path c d)

pub after_irrefl : (s : String) → after s s ≡ false
unfolding after
after_irrefl String.[] = refl
after_irrefl (String.◌∷◌ c s) = ground (arith, after_irrefl s)

module _ {A : Type 0} (less : A → A → Bool) where
  -- `xs < ys` of two lists: the first elements that differ decide.
  unfoldable pub lex : List A → List A → Bool
  lex xs [] = false
  lex [] (y ∷ ys) = true
  lex (x ∷ xs) (y ∷ ys) =
      let rest = lex xs ys in if less x y then true else if less y x then false else rest

  pub lex_asym :
      ((x y : A) → less x y ≡ true → less y x ≡ false)
      → (xs ys : List A) → lex xs ys ≡ true
      → lex ys xs ≡ false
  unfolding lex
  lex_asym asym [] [] h = ground (arith, h)
  lex_asym asym (x ∷ xs) [] h = ground (arith, h)
  lex_asym asym [] (y ∷ ys) h = refl
  lex_asym asym (x ∷ xs) (y ∷ ys) h = ground (arith, asym x y, lex_asym asym xs ys)

module _ {A K : Type 0} (less : K → K → Bool) (key : A → K) where
  unfoldable pub insert_by : A → List A → List A
  insert_by x [] = x ∷ []
  insert_by x (y ∷ ys) =
      let later = y ∷ insert_by x ys in if less (key y) (key x) then later else x ∷ y ∷ ys

  -- `sorted( items, key=key )`
  unfoldable pub sort_by : List A → List A
  unfolding insert_by
  sort_by [] = []
  sort_by (x ∷ xs) = insert_by x (sort_by xs)

  -- No element comes before one with a smaller key.
  abbrev pub IsSortedBy : List A → Type 0
  IsSortedBy [] = Unit
  IsSortedBy (x ∷ []) = Unit
  IsSortedBy (x ∷ y ∷ ys) = (less (key y) (key x) ≡ false) × IsSortedBy (y ∷ ys)

  insert_by-perm : (x : A) (ys : List A) → Perm (insert_by x ys) (x ∷ ys)
  unfolding insert_by
  insert_by-perm x [] = Perm.refl _
  insert_by-perm x (y ∷ ys) = elim (Bool-cases (less (key y) (key x))) [
    | inl e ↦ rw e (Perm.trans (Perm.cons y (insert_by-perm x ys)) (Perm.swap x y ys))
    | inr e ↦ rw e (Perm.refl _)
  ]

  pub sort_by-perm : (xs : List A) → Perm (sort_by xs) xs
  unfolding sort_by
  sort_by-perm [] = Perm.refl _
  sort_by-perm (x ∷ xs) = Perm.trans (insert_by-perm x (sort_by xs)) (Perm.cons x (sort_by-perm xs))

  insert_by-All {κ} :
      (P : A → Type κ) (x : A) (ys : List A) → P x → All P ys → All P (insert_by x ys)
  unfolding insert_by
  insert_by-All P x [] p h = (p, tt)
  insert_by-All P x (y ∷ ys) p h = elim (Bool-cases (less (key y) (key x))) [
    | inl e ↦ rw e (h.0, insert_by-All P x ys p h.1)
    | inr e ↦ rw e (p, h)
  ]

  pub sort_by-All {κ} : (P : A → Type κ) (xs : List A) → All P xs → All P (sort_by xs)
  unfolding sort_by
  sort_by-All P [] h = tt
  sort_by-All P (x ∷ xs) h = insert_by-All P x (sort_by xs) h.0 (sort_by-All P xs h.1)

  module _ (asym : (k l : K) → less k l ≡ true → less l k ≡ false) where
    insert_by-IsSortedBy : (x : A) (ys : List A) → IsSortedBy ys → IsSortedBy (insert_by x ys)
    unfolding insert_by
    insert_by-IsSortedBy x [] h = tt
    insert_by-IsSortedBy x (y ∷ []) h = elim (Bool-cases (less (key y) (key x))) [
      | inl e ↦ rw e (asym _ _ e, tt)
      | inr e ↦ rw e (e, tt)
    ]
    insert_by-IsSortedBy x (y ∷ z ∷ zs) h = elim (Bool-cases (less (key y) (key x))) [
      | inl e ↦ rw e (elim (Bool-cases (less (key z) (key x))) [
        | inl e' ↦ rw e' (h.0, (rw e' at (insert_by-IsSortedBy x (z ∷ zs) h.1)))
        | inr e' ↦ rw e' (asym _ _ e, (e', h.1))
      ])
      | inr e ↦ rw e (e, h)
    ]

    pub sort_by-IsSortedBy : (xs : List A) → IsSortedBy (sort_by xs)
    unfolding sort_by
    sort_by-IsSortedBy [] = tt
    sort_by-IsSortedBy (x ∷ xs) = insert_by-IsSortedBy x (sort_by xs) (sort_by-IsSortedBy xs)
