-- ===== src/Shared/Tables.antt =====
-- Python's `dict` with keys that are numbers (or stand for objects), in insertion order.
use Prim.Native.Nat.{ℕ}
use mathlib.Core.Path.{◌≡◌}
use mathlib.Core.Option.{Option, none, some}
use mathlib.Core.List.{List, [], ◌∷◌}
use native.Mathlib.Omega.{arith}
use faultynet.Shared.Tests.{◌==◌, if◌then◌else◌}

abbrev pub Numbered : Type 0 → Type 0
Numbered V = List (ℕ × V)

module _ {V : Type 0} where
  unfoldable pub at : ℕ → Numbered V → Option V
  at k [] = none
  at k ((j, v) ∷ d) = if j == k then some v else at k d

  unfoldable pub put : ℕ → V → Numbered V → Numbered V
  put k v [] = (k, v) ∷ []
  put k v ((j, w) ∷ d) = if j == k then (j, v) ∷ d else (j, w) ∷ put k v d

  -- `del d[k]`
  unfoldable pub remove : ℕ → Numbered V → Numbered V
  remove k [] = []
  remove k ((j, w) ∷ d) = let rest = remove k d in if j == k then rest else (j, w) ∷ rest

  pub at-put :
      (k j : ℕ) (v : V) (d : Numbered V) → at j (put k v d) ≡ (if k == j then some v else at j d)
  unfolding at put
  at-put k j v [] = ground arith
  at-put k j v ((i, w) ∷ d) = ground (arith, at-put k j v d)

  pub at-remove : (k j : ℕ) (d : Numbered V) → at j (remove k d) ≡ (if k == j then none else at j d)
  unfolding at remove
  at-remove k j [] = ground arith
  at-remove k j ((i, w) ∷ d) = ground (arith, at-remove k j d)
