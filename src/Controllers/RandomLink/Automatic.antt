-- ===== src/Controllers/RandomLink/Automatic.antt =====
-- `RandomLinkFaultController.go` in the mode "automatic", from the message that starts it.
use mathlib.Core.Path.{subst}
use faultynet.Shared.{
  List, ℤ, String, Bool, ℕ, suc, ◌+◌, ◌≡◌, refl, ap, sym, ◌∙◌, true, length, pos, min_ℤ,
}
use faultynet.Values.{Floats}
use faultynet.Controllers.Runs.{Controller, start_injecting, wait_until_go, counting}
use faultynet.Controllers.Runs.Completion.{
  Alone, all_return, schedule, at_number, IsOver, automatic_completes,
}
use faultynet.Controllers.RandomLink.{RandomLinks, random_runs, iteration_returns}
use faultynet.Controllers.LinkPairs.{End}

-- The controller once it has been started.
abbrev pub started : {F : Floats} → RandomLinks F → Controller
started self = record (random_runs self) {
  is_active = true;
  listening = true;
  phase = counting self.start_number_of_links;
}

start_of :
    {F : Floats} (self : RandomLinks F)
    → wait_until_go start_injecting (random_runs self) ≡ started self
unfolding wait_until_go random_runs
start_of self = refl

at_start :
    {F : Floats} (self : RandomLinks F) (n : ℕ)
    → self.start_number_of_links ≡ pos n
    → at_number (started self) n ≡ started self
at_start self n h = ap (λ m. record (started self) { phase = counting m }) (sym h)

-- Which runs return, where `choose n` is the choice of the sample of the run of the number n.
abbrev pub runs_return :
    {F : Floats} → String → (ℤ → List (List End) → ℕ → List (List End)) → RandomLinks F → ℤ → Bool
runs_return tc_path choose self n = iteration_returns tc_path (choose n) self n

-- A controller of random links in the mode "automatic" is told to start, and no further message
-- arrives. It makes one run for each number from its start_links to its end_links, or to the number
-- of links where that is less, in this order, up to the first run that raises: whose sample, whose
-- making of the injectors or one of whose injections raises. If none raises then it ends with the
-- done message sent and is inactive; if one does then `go` ends with the exception, no done message
-- is sent, and it is still active.
pub random_completes :
    {F : Floats} (tc_path : String) (choose : ℤ → List (List End) → ℕ → List (List End))
    (self : RandomLinks F) (n k last : ℕ)
    → self.mode ≡ "automatic"
    → self.start_number_of_links ≡ pos n
    → min_ℤ self.end_number_of_links (pos (length self.target_links_list)) ≡ pos last
    → n + k ≡ suc last
    → (d : Controller) × Alone
        (runs_return tc_path choose self)
        (wait_until_go start_injecting (random_runs self))
        (schedule (runs_return tc_path choose self) n k)
        d
      × IsOver (all_return (runs_return tc_path choose self) n k) d
random_completes tc_path choose self n k last automatic first end h =
    let returns = runs_return tc_path choose self in
    subst
      (λ c.
        (d : Controller) × Alone returns c (schedule returns n k) d
        × IsOver (all_return returns n k) d)
      (at_start self n first ∙ sym (start_of self))
      (automatic_completes (started self) last
        (unfold random_runs in
          record { automatic = automatic; active = refl; unreported = refl; range = end })
        returns k n h)
