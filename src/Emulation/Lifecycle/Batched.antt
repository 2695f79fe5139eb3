-- ===== src/Emulation/Lifecycle/Batched.antt =====
-- The batches in which switches are started and stopped (mininet/net.py).
use faultynet.Shared.{◌≡◌, true, false, String, List, [], ◌∷◌, All}
use faultynet.Shared.Sorting.{after}
use faultynet.Emulation.{Member}

-- All members have one class.
abbrev pub IsUniform : (Member → String) → List Member → Type 0
IsUniform class_of [] = Unit
IsUniform class_of (s ∷ ss) = All (λ t. class_of t ≡ class_of s) ss

-- Every batch has a switch, and its class comes after the class of the batch before it.
abbrev BeginsAfter : (Member → String) → String → List (List Member) → Type 0
BeginsAfter class_of c [] = Unit
BeginsAfter class_of c ([] ∷ groups) = ⊥
BeginsAfter class_of c ((t ∷ ts) ∷ groups) = after (class_of t) c ≡ true

abbrev pub IsAscending : (Member → String) → List (List Member) → Type 0
IsAscending class_of [] = Unit
IsAscending class_of ([] ∷ groups) = ⊥
IsAscending class_of ((s ∷ ss) ∷ groups) =
    BeginsAfter class_of (class_of s) groups × IsAscending class_of groups

-- The first switch's class is not before a class.
abbrev BeginsFrom : (Member → String) → String → List (List Member) → Type 0
BeginsFrom class_of c [] = Unit
BeginsFrom class_of c ([] ∷ groups) = ⊥
BeginsFrom class_of c ((t ∷ ts) ∷ groups) = after c (class_of t) ≡ false
