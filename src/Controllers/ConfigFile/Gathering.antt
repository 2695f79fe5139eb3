-- ===== src/Controllers/ConfigFile/Gathering.antt =====
-- ConfigFileFaultController.py: `go`, which gathers the coroutines of all injectors. Where one of them
-- raises, `gather` passes this on, `go` ends with it, and `asyncio.run` cancels the others.
pub mod Emptied
use mathlib.Core.List.{Mem}
use faultynet.Shared.{ℕ, ◌≡◌, String, Option, List, [], ◌∷◌, map, All, Result, ok, err, Exn}
use faultynet.Values.{Floats, Value}
use faultynet.Injectors.Script.{Event, slept, Script}
use faultynet.Injectors.Traces.{Merge}
use faultynet.Injectors.Link
use faultynet.Injectors.Multi
use faultynet.Injectors.Node
use faultynet.Injectors.Node.{Host}
use faultynet.Controllers.ConfigFile.{Injector, link, node, multi}

module _ {F : Floats} where
  -- `self.tag`
  abbrev pub tag_of : Injector F → String
  tag_of (link i) = i.tag
  tag_of (node i) = i.tag
  tag_of (multi i) = i.tag

  -- `go` of an injector; a node has a control group of its own.
  unfoldable pub injector_go : String → (Option ℕ → Host F) → Injector F → Script F (Unit {0})
  injector_go tc_path host (link i) = Link.do_injection tc_path i
  injector_go tc_path host (node i) = Node.do_injection (host i.target_process_pid) i
  injector_go tc_path host (multi i) = Multi.do_injection i

-- How a coroutine ends.
pub data Ending : Type 0 where
  returned cancelled : Ending
  raised : Exn → Ending

abbrev pub ending_of : Result (Unit {0}) → Ending
ending_of (ok u) = returned
ending_of (err e) = raised e

-- The effects up to a sleep, in which a coroutine is cancelled.
pub data Asleep {F : Floats} : List (Event F) → List (Event F) → Type 0 where
  here : {v : Value F} {es : List (Event F)} → Asleep (slept v ∷ es) (slept v ∷ [])
  later : {e : Event F} {es part : List (Event F)} → Asleep es part → Asleep (e ∷ es) (e ∷ part)

-- What a coroutine has done when it has ended.
pub data Part {F : Floats} (s : Script F (Unit {0})) : List (Event F) → Ending → Type 0 where
  ended : Part s s.events (ending_of s.result)
  unbegun : Part s [] cancelled
  asleep : {es : List (Event F)} → Asleep s.events es → Part s es cancelled

-- The effects of several coroutines, in any order in which they may happen, and how each ends.
pub data Together {F : Floats}
    : List (Script F (Unit {0})) → List (Event F) → List Ending → Type 0 where
  nobody : Together [] [] []
  joined :
      {s : Script F (Unit {0})} {es : List (Event F)} {o : Ending} {ss : List (Script F (Unit {0}))}
      {rest trace : List (Event F)} {os : List Ending}
      → Part s es o
      → Together ss rest os
      → Merge es rest trace
      → Together (s ∷ ss) trace (o ∷ os)

-- `go` over the injectors of `self.faults`: it reports the end where all of them have returned, and
-- raises what one of them has raised.
pub data Go {F : Floats} (tc_path : String) (host : Option ℕ → Host F)
    : List (Injector F) → List (Event F) → Result (Unit {0}) → Type 0 where
  reports :
      {faults : List (Injector F)} {trace : List (Event F)} {os : List Ending}
      → Together (map (injector_go tc_path host) faults) trace os
      → All (λ o. o ≡ returned) os
      → Go tc_path host faults trace (ok tt)
  raises :
      {faults : List (Injector F)} {trace : List (Event F)} {os : List Ending} {e : Exn}
      → Together (map (injector_go tc_path host) faults) trace os
      → Mem (raised e) os
      → Go tc_path host faults trace (err e)
