-- ===== src/Placement/Colocated.antt =====
-- `SwitchBinPlacer.calculatePlacement` (examples/cluster.py): where the hosts go.
use faultynet.Shared.{◌≡◌, String, true, none, some, List, Dict, lookup}
use faultynet.Placement.{has}

abbrev IsPlaced : String → Dict String → Type 0
IsPlaced n d = lookup n d ≡ none → ⊥

record IsColocated (hosts : List String) (near placement d : Dict String) : Type 0 where
  grown : (k v : String) → lookup k placement ≡ some v → lookup k d ≡ some v
  together :
      (h s : String)
      → has h hosts ≡ true
      → lookup h placement ≡ none
      → lookup h near ≡ some s
      → lookup h d ≡ lookup s d
