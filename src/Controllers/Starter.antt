-- ===== src/Controllers/Starter.antt =====
-- BaseFaultController.py: what a starter knows of its controller (`go`, `is_active`).
pub mod Waiting
use faultynet.Shared.{ℕ, zero, suc, Bool, true, false, List, [], ◌∷◌}

-- What the controller sends, other texts included.
pub data Reply : Type 0 where
  injection_done other_reply : Reply

pub record Starter : Type 0 where
  pub faults_are_active : Bool
  pub replies : List Reply

-- `go`, without the message that it sends.
unfoldable pub start_faults : Starter → Starter
start_faults self = record self { faults_are_active = true }

abbrev poll : Starter → List Reply → Bool × Starter
poll self [] = (true, self)
poll self (injection_done ∷ rest) =
    (false, record self { faults_are_active = false; replies = rest })
poll self (other_reply ∷ rest) = (true, record self { replies = rest })

-- `is_active`, which reads one reply if there is one.
unfoldable pub is_active : Starter → Bool × Starter
is_active self = elim self.faults_are_active [
  | false ↦ (false, self)
  | true ↦ poll self self.replies
]

-- The answers of a number of calls, one after another.
unfoldable pub answers : ℕ → Starter → List Bool
unfolding is_active
answers zero self = []
answers (suc n) self = let (b, self') = is_active self in b ∷ answers n self'
