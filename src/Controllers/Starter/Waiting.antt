-- ===== src/Controllers/Starter/Waiting.antt =====
-- The answers of a starter that waits for its controller.
use faultynet.Shared.{ℕ, zero, suc, ◌≡◌, refl, ap, ◌∙◌, true, false, List, [], ◌∷◌, ◌++◌}
use faultynet.Controllers.Starter.{
  Reply, injection_done, other_reply, Starter, start_faults, is_active, answers,
}

abbrev pub repeated {ℓ} : {A : Type ℓ} → A → ℕ → List A
repeated x zero = []
repeated x (suc n) = x ∷ repeated x n

-- k calls, one more, and m more.
abbrev pub after : ℕ → ℕ → ℕ
after zero m = suc m
after (suc k) m = suc (after k m)

answers-inactive :
    (n : ℕ) (replies : List Reply)
    → answers n (record { faults_are_active = false; replies = replies }) ≡ repeated false n
unfolding answers is_active
answers-inactive zero replies = refl
answers-inactive (suc n) replies = ap (λ l. false ∷ l) (answers-inactive n replies)

counted :
    (k m : ℕ) (rest : List Reply)
    → answers (after k m) (record {
      faults_are_active = true;
      replies = repeated other_reply k ++ (injection_done ∷ rest);
    })
      ≡ repeated true k ++ repeated false (suc m)
unfolding answers is_active
counted zero m rest = ap (λ l. false ∷ l) (answers-inactive m rest)
counted (suc k) m rest = ap (λ l. true ∷ l) (counted k m rest)

-- A starter that has been told to go, and whose controller has sent `k` other texts before it
-- reported the end: it takes its controller for active `k` times, and then never again.
answers-until_done :
    (k m : ℕ) (rest : List Reply) (self : Starter)
    → self.replies ≡ repeated other_reply k ++ (injection_done ∷ rest)
    → answers (after k m) (start_faults self) ≡ repeated true k ++ repeated false (suc m)
unfolding start_faults
answers-until_done k m rest self h =
    ap (λ r. answers (after k m) (record { faults_are_active = true; replies = r })) h
    ∙ counted k m rest
