-- ===== src/Controllers/RandomLink.antt =====
-- RandomLinkFaultController.py: the numbered runs over randomly chosen links.
pub mod Sampling
pub mod Automatic
use Prim.Native.Char.{Char}
use faultynet.Shared.{
  ℕ, String, Bool, true, false, ◌&&◌, Option, none, some, List, [], ◌∷◌, ◌++◌, length, ℤ, pos,
  negsuc, Result, ok, err, index_error, value_error, ◌>>=◌, min_ℤ, ltb, if◌then◌else◌, ◌-◌, ◌^◌,
}
use faultynet.Values.{Floats}
use faultynet.Injectors.Script
use faultynet.Injectors.Link.{LinkInjector, do_injection}
use faultynet.Controllers.LinkPairs.{
  End, LinkConfig, LinkFault, int_or, link_fault_of, get_injectors_for_ends,
}
use faultynet.Controllers.Runs.{Controller, idle}

-- `sys.maxsize`
abbrev pub maxsize : ℕ
maxsize = 2 ^ 63 - 1

pub record RandomLinks (F : Floats) : Type 0 where
  pub start_number_of_links : ℤ
  pub end_number_of_links : ℤ
  pub target_links_list : List (List End)
  pub mode : String
  pub fault : LinkFault F

abbrev pub mode_or_automatic : Option String → String
mode_or_automatic none = "automatic"
mode_or_automatic (some m) = m

-- `random.sample(links, n)`; `choose` is the choice itself.
unfoldable pub sample :
    (List (List End) → ℕ → List (List End)) → List (List End) → ℤ → Result (List (List End))
sample choose links (negsuc n) = err value_error
sample choose links (pos n) = if ltb (length links) n then err value_error else ok (choose links n)

abbrev is_ok : {A : Type 0} → Result A → Bool
is_ok (ok a) = true
is_ok (err e) = false

module _ {F : Floats} where
  -- `_configByFile`
  unfoldable pub config_random : (Char → Bool) → LinkConfig F → Result (RandomLinks F)
  unfolding link_fault_of
  config_random is_word config = int_or config.start_links (pos 1) >>= λ first.
      int_or config.end_links (pos maxsize) >>= λ last. link_fault_of is_word config >>= λ fault.
      ok (record {
        start_number_of_links = first;
        end_number_of_links = last;
        target_links_list = config.links;
        mode = mode_or_automatic config.mode;
        fault = fault;
      })

  -- The controller of numbered runs that `go` makes of it.
  unfoldable pub random_runs : RandomLinks F → Controller
  random_runs self = record {
    mode = self.mode;
    first_run = self.start_number_of_links;
    last_run = min_ℤ self.end_number_of_links (pos (length self.target_links_list));
    is_active = false;
    do_next_run = false;
    listening = false;
    phase = idle;
    inbox = [];
    done_sent = false;
  }

  -- `_get_injectors_for_link`: a link of an interface with itself has one end.
  unfoldable pub get_injectors_for_link : LinkFault F → List End → Result (List (LinkInjector F))
  unfolding get_injectors_for_ends
  get_injectors_for_link fault (a ∷ b ∷ rest) = get_injectors_for_ends fault a b
  get_injectors_for_link fault _ = err index_error

  unfoldable pub injectors_for_links :
      LinkFault F → List (List End) → Result (List (LinkInjector F))
  unfolding get_injectors_for_link
  injectors_for_links fault [] = ok []
  injectors_for_links fault (link ∷ links) =
      let rest = injectors_for_links fault links in
      get_injectors_for_link fault link >>= λ two. rest >>= λ others. ok (two ++ others)

  -- The injectors of `_do_iteration_with_n_links`, which run concurrently.
  unfoldable pub do_iteration_with_n_links :
      (List (List End) → ℕ → List (List End)) → RandomLinks F → ℤ → Result (List (LinkInjector F))
  unfolding sample injectors_for_links
  do_iteration_with_n_links choose self n =
      sample choose self.target_links_list n >>= injectors_for_links self.fault

  -- Does the `gather` of injectors return: none of their coroutines raises.
  unfoldable pub gather_returns : String → List (LinkInjector F) → Bool
  unfolding do_injection
  gather_returns tc_path [] = true
  gather_returns tc_path (i ∷ is) =
      let rest = gather_returns tc_path is in is_ok (do_injection tc_path i).result && rest

  abbrev made_return : String → Result (List (LinkInjector F)) → Bool
  made_return tc_path (err e) = false
  made_return tc_path (ok is) = gather_returns tc_path is

  -- Does `_do_iteration_with_n_links` return. Else the exception of the sample, of the making of an
  -- injector or of an injection ends `go`.
  unfoldable pub iteration_returns :
      String → (List (List End) → ℕ → List (List End)) → RandomLinks F → ℤ → Bool
  unfolding do_iteration_with_n_links gather_returns
  iteration_returns tc_path choose self n =
      made_return tc_path (do_iteration_with_n_links choose self n)
