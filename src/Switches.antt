-- ===== src/Switches.antt =====
-- mininet/node.py: the commands that an `OVSSwitch` saves, and how `batchStartup` runs them. What the
-- commands do is left out.
pub mod Batches
use Prim.Native.String.{count}
use faultynet.Shared.{
  ℕ, ◌+◌, ◌<>◌, leb, String, Bool, true, false, List, [], ◌∷◌, ◌++◌, map, cat, strip, if◌then◌else◌,
}

pub record OvsSwitch : Type 0 where
  pub deployed_name : String
  pub batch : Bool
  pub commands : List String

-- `' '.join( str( arg ).strip() for arg in args )`
unfoldable pub joined_args : List String → String
unfolding strip
joined_args [] = ""
joined_args (a ∷ []) = strip a
joined_args (a ∷ b ∷ args) = strip a <> (" " <> joined_args (b ∷ args))

-- `vsctl`: the switch, and the command that is run at once, in its parts.
unfoldable pub vsctl : List String → OvsSwitch → OvsSwitch × List (List String)
unfolding joined_args
vsctl args s =
    if s.batch
    then (record s { commands = s.commands ++ (joined_args args ∷ []) }, [])
    else (s, ("ovs-vsctl" ∷ args) ∷ [])

-- The commands that are run so far, and the one that grows.
abbrev pub Runs : Type 0
Runs = List String × String

-- The loop of `batchStartup` over the commands of a switch.
unfoldable pub collect : ℕ → List String → Runs → Runs
unfolding strip
collect argmax [] r = r
collect argmax (c ∷ cs) (runs, cmds) =
    let cmd = strip c in
    let full = collect argmax cs (runs ++ (cmds ∷ []), "ovs-vsctl" <> (" " <> cmd)) in
    let room = collect argmax cs (runs, cmds <> (" " <> cmd)) in
    if leb argmax (count cmds + count cmd) then full else room

abbrev pub del_br : Bool → OvsSwitch → List String
del_br old s = if old then cat ("ovs-vsctl del-br " ∷ s.deployed_name ∷ []) ∷ [] else []

unfoldable pub batch_loop : ℕ → Bool → List OvsSwitch → Runs → Runs
unfolding collect cat
batch_loop argmax old [] r = r
batch_loop argmax old (s ∷ ss) (runs, cmds) =
    batch_loop argmax old ss (collect argmax s.commands (runs ++ del_br old s, cmds))

-- `switch.batch = False` stands in the loop over the commands.
abbrev pub out_of_batch : OvsSwitch → OvsSwitch
out_of_batch s = elim s.commands [ [] ↦ s | ◌∷◌ c cs ↦ record s { batch = false } ]

abbrev pub all_runs : Runs → List String
all_runs (runs, cmds) = runs ++ (cmds ∷ [])

-- `batchStartup`: the commands that are run, and the switches, before their links are configured again.
unfoldable pub batch_startup : ℕ → Bool → List OvsSwitch → List String × List OvsSwitch
unfolding batch_loop
batch_startup argmax old switches =
    (all_runs (batch_loop argmax old switches ([], "ovs-vsctl")), map out_of_batch switches)
