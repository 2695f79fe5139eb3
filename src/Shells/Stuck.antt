-- ===== src/Shells/Stuck.antt =====
-- `waitOutput` of mininet/node.py on a buffer that is not empty.
use faultynet.Shared.{
  ℕ, zero, suc, ◌≡◌, ◌≢◌, refl, ap, ◌∙◌, Bool, true, false, if◌then◌else◌, ◌++◌, none, some, [],
  ◌∷◌, ◌>>?◌,
}
use faultynet.Shells.{Shell, is_empty, wait_readable, monitor, wait_output}
use faultynet.Shells.Pids.{Codes}

if_true : {A : Type 0} (b : Bool) (x y : A) → b ≡ true → (if b then x else y) ≡ x
if_true b x y h = rw h refl

filled : (b : Codes) → b ≢ [] → is_empty b ≡ false
filled [] h = absurd (h refl)
filled (c ∷ b) h = refl

nothing_ready :
    (find_pid : Bool) (s : Shell) → s.readbuf ≢ [] → monitor true find_pid s ≡ some ([], s)
unfolding monitor wait_readable
nothing_ready find_pid s held = rw (filled s.readbuf held) refl

-- While something is left in the buffer, `waitReadable` returns None, `monitor` takes that for a shell
-- that has nothing to read, and `waitOutput` makes its rounds without end: whatever the buffer holds
-- and whatever is to come, no number of rounds is enough.
pub wait_output_spins :
    (fuel : ℕ) (find_pid : Bool) (output : Codes) (s : Shell)
    → s.readbuf ≢ []
    → s.waiting ≡ true
    → wait_output fuel find_pid output s ≡ none
unfolding wait_output
wait_output_spins zero find_pid output s held waiting = refl
wait_output_spins (suc fuel) find_pid output s held waiting =
    if_true s.waiting _ (some (output, s)) waiting
    ∙ ap (λ o. o >>? λ (got, s1). wait_output fuel find_pid (output ++ got) s1)
        (nothing_ready find_pid s held)
    ∙ wait_output_spins fuel find_pid (output ++ []) s held waiting
