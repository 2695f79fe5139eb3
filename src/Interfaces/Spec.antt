-- ===== src/Interfaces/Spec.antt =====
-- What the tables of a node's interfaces promise (mininet/node.py): each interface has a port and a
-- name, and no other interface has either.
use faultynet.Shared.{
  ℕ, ◌==◌, ◌≡◌, ◌≢◌, ◌⊎◌, String, Option, none, some, lookup, at, if◌then◌else◌, Result, ok,
}
use faultynet.Interfaces.{Tables, new_intf, del_intf, rename}

-- The port and the name of each interface.
abbrev pub Wiring : Type 0
Wiring = ℕ → Option (ℕ × String)

abbrev pub unwired : Wiring
unwired intf = none

-- An interface gets a port and a name, or new ones.
abbrev pub attach : ℕ → ℕ → String → Wiring → Wiring
attach intf port name s other = if intf == other then some (port, name) else s other

abbrev pub detach : ℕ → Wiring → Wiring
detach intf s other = if intf == other then none else s other

-- All four tables tell of this wiring, and of nothing else.
pub record Represents (t : Tables) (s : Wiring) : Type 0 where
  pub wired :
      (i p : ℕ) (n : String)
      → s i ≡ some (p, n)
      → (at i t.ports ≡ some p)
        × (t.name_of i ≡ n)
        × (at p t.intfs ≡ some i)
        × (lookup n t.name_to_intf ≡ some i)
  pub by_port : (p i : ℕ) → at p t.intfs ≡ some i → (n : String) × (s i ≡ some (p, n))
  pub by_name :
      (n : String) (i : ℕ) → lookup n t.name_to_intf ≡ some i → (p : ℕ) × (s i ≡ some (p, n))
  pub by_intf : (i p : ℕ) → at i t.ports ≡ some p → (n : String) × (s i ≡ some (p, n))

pub data Op : Type 0 where
  add : ℕ → String → Option ℕ → Op
  delete : ℕ → Op
  rename_to : ℕ → String → Op

-- What the node does.
abbrev pub perform : ℕ → Op → Tables → Result Tables
perform port_base (add intf name port) t = ok (new_intf port_base intf name port t)
perform port_base (delete intf) t = del_intf intf t
perform port_base (rename_to intf name) t = ok (rename intf name t)

-- No interface has the port, or the name.
abbrev pub IsFreePort : ℕ → Wiring → Type 0
IsFreePort port s = (i p : ℕ) (n : String) → s i ≡ some (p, n) → p ≢ port

abbrev pub IsFreeName : String → Wiring → Type 0
IsFreeName name s = (i p : ℕ) (n : String) → s i ≡ some (p, n) → n ≢ name

-- Where the caller may ask for an operation: a port that is given is free.
abbrev pub IsPermitted : Op → Wiring → Type 0
IsPermitted (add intf name none) s = (s intf ≡ none) × IsFreeName name s
IsPermitted (add intf name (some port)) s = (s intf ≡ none) × IsFreeName name s × IsFreePort port s
IsPermitted (delete intf) s = Unit
IsPermitted (rename_to intf name) s =
    ((p : ℕ) × (old : String) × (s intf ≡ some (p, old))) × IsFreeName name s

-- The steps: a port that the caller leaves open is any free one.
pub data Step : Wiring → Op → Wiring → Type 0 where
  attached :
      {s : Wiring} (intf port : ℕ) (name : String) (asked : Option ℕ)
      → IsFreePort port s
      → (asked ≡ none) ⊎ (asked ≡ some port)
      → Step s (add intf name asked) (attach intf port name s)
  detached : {s : Wiring} (intf : ℕ) → Step s (delete intf) (detach intf s)
  renamed :
      {s : Wiring} (intf port : ℕ) (old name : String)
      → s intf ≡ some (port, old)
      → Step s (rename_to intf name) (attach intf port name s)
