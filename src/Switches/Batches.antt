-- ===== src/Switches/Batches.antt =====
-- The commands of `batchStartup` (mininet/node.py): each of the saved ones once, in order, none too long.
use Prim.Native.String.{count}
use text.Mathlib.TextLemmas.{length-append}
use faultynet.Shared.{
  ℕ, ◌+◌, ◌≤◌, ◌≡◌, refl, sym, ap, ◌∙◌, ◌<>◌, leb, String, false, List, [], ◌∷◌, ◌++◌, append_nil,
  append_assoc, map, concat, All, All-append, Bool-cases, inl, inr, arith, strip,
}
use faultynet.Switches.{OvsSwitch, Runs, collect, batch_loop, batch_startup}

-- One command with its arguments.
abbrev pub render_from : String → List String → String
render_from acc [] = acc
render_from acc (c ∷ cs) = render_from (acc <> (" " <> c)) cs

abbrev pub render : List String → String
render = render_from "ovs-vsctl"

render-snoc :
    (acc : String) (cs : List String) (c : String)
    → render_from acc (cs ++ (c ∷ [])) ≡ render_from acc cs <> (" " <> c)
render-snoc acc [] c = refl
render-snoc acc (x ∷ cs) c = render-snoc (acc <> (" " <> x)) cs c

map-snoc :
    (gs : List (List String)) (g : List String)
    → map render (gs ++ (g ∷ [])) ≡ map render gs ++ (render g ∷ [])
map-snoc [] g = refl
map-snoc (x ∷ gs) g = ap (λ l. render x ∷ l) (map-snoc gs g)

concat-snoc : (gs : List (List String)) (g : List String) → concat (gs ++ (g ∷ [])) ≡ concat gs ++ g
concat-snoc [] g = append_nil g
concat-snoc (x ∷ gs) g = ap (λ l. x ++ l) (concat-snoc gs g) ∙ sym (append_assoc x (concat gs) g)

abbrev pub IsShort : ℕ → String → Type 0
IsShort argmax run = count run ≤ argmax

-- The command fits behind the name of the program.
abbrev pub Fits : ℕ → String → Type 0
Fits argmax c = count (strip c) + 10 ≤ argmax

-- What the runs hold: groups of the commands so far.
record IsSplit (argmax : ℕ) (done : List String) (r : Runs) : Type 0 where
  groups : List (List String)
  last : List String
  runs_are : r.0 ≡ map render groups
  cmds_are : r.1 ≡ render last
  all_done : concat groups ++ last ≡ done
  runs_short : All (IsShort argmax) r.0
  cmds_short : IsShort argmax r.1

run_length : (s c : String) → count (s <> (" " <> c)) ≡ count s + (count c + 1)
run_length s c =
    let inner = length-append " " c in length-append s (" " <> c) ∙ omega (arith, inner)

collect-IsSplit :
    (argmax : ℕ) (cs done : List String) (r : Runs)
    → All (Fits argmax) cs
    → IsSplit argmax done r
    → IsSplit argmax (done ++ map strip cs) (collect argmax cs r)
unfolding collect
collect-IsSplit argmax [] done r fits h = rw (append_nil done) h
collect-IsSplit argmax (c ∷ cs) done (runs, cmds) fits h =
    elim (Bool-cases (leb argmax (count cmds + count (strip c)))) [
      | inl full ↦
          let next : IsSplit argmax (done ++ (strip c ∷ []))
              (runs ++ (cmds ∷ []), "ovs-vsctl" <> (" " <> strip c)) =
            record {
              groups = h.groups ++ (h.last ∷ []);
              last = strip c ∷ [];
              runs_are = rw (h.runs_are, h.cmds_are) (sym (map-snoc h.groups h.last));
              cmds_are = refl;
              all_done = ap (λ l. l ++ (strip c ∷ [])) (concat-snoc h.groups h.last ∙ h.all_done);
              runs_short =
                  All-append (IsShort argmax) runs (cmds ∷ []) h.runs_short (h.cmds_short, tt);
              cmds_short = omega (arith, run_length "ovs-vsctl" (strip c), fits.0);
            } in
          rw (full, ← append_assoc done (strip c ∷ []) (map strip cs))
            (collect-IsSplit argmax cs _ _ fits.1 next)
      | inr room ↦
          let next : IsSplit argmax (done ++ (strip c ∷ [])) (runs, cmds <> (" " <> strip c)) =
            record {
              groups = h.groups;
              last = h.last ++ (strip c ∷ []);
              runs_are = h.runs_are;
              cmds_are =
                  ap (λ s. s <> (" " <> strip c)) h.cmds_are
                  ∙ sym (render-snoc "ovs-vsctl" h.last (strip c));
              all_done =
                  sym (append_assoc (concat h.groups) h.last (strip c ∷ []))
                  ∙ ap (λ l. l ++ (strip c ∷ [])) h.all_done;
              runs_short = h.runs_short;
              cmds_short = ground (arith, run_length cmds (strip c), room);
            } in
          rw (room, ← append_assoc done (strip c ∷ []) (map strip cs))
            (collect-IsSplit argmax cs _ _ fits.1 next)
    ]

map_append : {A B : Type 0} (f : A → B) (xs ys : List A) → map f (xs ++ ys) ≡ map f xs ++ map f ys
map_append f [] ys = refl
map_append f (x ∷ xs) ys = ap (λ l. f x ∷ l) (map_append f xs ys)

-- The saved commands of all switches.
abbrev pub saved : List OvsSwitch → List String
saved ss = concat (map (λ s. s.commands) ss)

batch_loop-IsSplit :
    (argmax : ℕ) (ss : List OvsSwitch) (done : List String) (r : Runs)
    → All (λ s. All (Fits argmax) s.commands) ss
    → IsSplit argmax done r
    → IsSplit argmax (done ++ map strip (saved ss)) (batch_loop argmax false ss r)
unfolding batch_loop
batch_loop-IsSplit argmax [] done r fits h = rw (append_nil done) h
batch_loop-IsSplit argmax (s ∷ ss) done (runs, cmds) fits h =
    let here = collect-IsSplit argmax s.commands done (runs, cmds) fits.0 h in
    let rest = batch_loop-IsSplit argmax ss _ _ fits.1 here in
    rw
      (
        append_nil runs,
        map_append strip s.commands (saved ss),
        ← append_assoc done (map strip s.commands) (map strip (saved ss)),
      )
      rest

-- Where Open vSwitch is not old and each saved command fits behind the name of the program,
-- `batchStartup` runs commands no longer than `argmax`. They are made of groups of saved commands:
-- every one stands in exactly one group, without the blanks around it, and in the order in which the
-- switches saved them.
pub batch_startup_complete :
    (argmax : ℕ) (switches : List OvsSwitch)
    → All (λ s. All (Fits argmax) s.commands) switches
    → 9 ≤ argmax
    → (groups : List (List String)) × ((batch_startup argmax false switches).0 ≡ map render groups)
      × (concat groups ≡ map strip (saved switches))
      × All (IsShort argmax) (batch_startup argmax false switches).0
unfolding batch_startup
batch_startup_complete argmax switches fits room =
    let start : IsSplit argmax [] ([], "ovs-vsctl") = record {
      groups = [];
      last = [];
      runs_are = refl;
      cmds_are = refl;
      all_done = refl;
      runs_short = tt;
      cmds_short = room;
    } in
    let h = batch_loop-IsSplit argmax switches [] _ fits start in
    (
      h.groups ++ (h.last ∷ []),
      rw (h.runs_are, h.cmds_are) (sym (map-snoc h.groups h.last)),
      concat-snoc h.groups h.last ∙ h.all_done,
      All-append (IsShort argmax) _ _ h.runs_short (h.cmds_short, tt),
    )
