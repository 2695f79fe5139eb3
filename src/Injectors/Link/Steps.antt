-- ===== src/Injectors/Link/Steps.antt =====
-- The values that a degradation of a link goes through.
use faultynet.Shared.{
  ℕ, zero, suc, ◌+◌, ◌*◌, ◌≤◌, min, String, ◌≡◌, refl, ◌∙◌, ap, some, [], ◌∷◌, ok, arith, ℤ, pos,
  ◌+ℤ◌, min_ℤ, show_ℤ,
}
use faultynet.Shared.Text.Decimal.{int-show_ℤ}
use faultynet.Values.{Floats, text}
use faultynet.Injectors.Script.{Script, ◌>>◌, return}
use faultynet.Injectors.Link.{LinkInjector, activation, degrade}
use faultynet.Injectors.Link.Degradation.{next_degradation}

-- The value after `v` is the sum with the step, and at most the end.
pub next_degradation-eq-min :
    {F : Floats} (v step end : ℤ)
    → next_degradation {F = F} (text (show_ℤ v)) (show_ℤ step) end
      ≡ ok (text (show_ℤ (min_ℤ (v +ℤ step) end)))
unfolding next_degradation
next_degradation-eq-min v step end = simp int-show_ℤ (ground arith)

module _ {F : Floats} (tc_path : String) (self : LinkInjector F) (length : F.Float) where
  -- One activation after the other, with the start plus the steps so far, and at most the end.
  pub ladder : ℕ → ℕ → ℕ → ℕ → ℕ → Script F (Unit {0})
  ladder zero i start step end = return tt
  ladder (suc n) i start step end = do
    activation tc_path self "random" (some (text (show_ℤ (pos (min (start + i * step) end))) ∷ []))
        length
    ladder n (suc i) start step end

  degrade-eq-ladder_from :
      (n i start step end : ℕ)
      → degrade tc_path self n
          (text (show_ℤ (pos (min (start + i * step) end))))
          (show_ℤ (pos step))
          (pos end)
          length
        ≡ ladder n i start step end
  unfolding degrade ladder
  degrade-eq-ladder_from zero i start step end = refl
  degrade-eq-ladder_from (suc n) i start step end =
      let next : min_ℤ (pos (min (start + i * step) end) +ℤ pos step) (pos end)
          ≡ pos (min (start + suc i * step) end) =
        ground arith in
      rw (next_degradation-eq-min, next, degrade-eq-ladder_from n (suc i) start step end)

  -- From a start that is at most the end, the rounds of a degradation apply the faults
  -- `start`, `start + step`, `start + 2 * step`, and so on, none above the end.
  pub degrade-eq-ladder :
      (n start step end : ℕ)
      → start ≤ end
      → degrade tc_path self n (text (show_ℤ (pos start))) (show_ℤ (pos step)) (pos end) length
        ≡ ladder n 0 start step end
  degrade-eq-ladder n start step end h =
      let e : start ≡ min (start + 0 * step) end = omega arith in
      ap (λ k. degrade tc_path self n (text (show_ℤ (pos k))) (show_ℤ (pos step)) (pos end) length)
        e
      ∙ degrade-eq-ladder_from n 0 start step end
