-- ===== src/Emulation/Distinct.antt =====
-- The addresses that a network gives to its hosts (mininet/net.py) are told apart by their texts.
use Prim.Native.String.append
use faultynet.Shared.{
  ℕ, zero, suc, ◌+◌, ◌≤◌, ◌<◌, ◌^◌, ◌≡◌, refl, sym, ap, ◌∙◌, String, ◌<>◌, Option, some, List, [],
  ◌∷◌, get_elem?, cat, show_ℕ, ok-injective, pos_part, arith,
}
use faultynet.Shared.Text.Split.{split_on, Without, split_on-append}
use faultynet.Shared.Text.Decimal.{show_ℕ-Without}
use faultynet.Addresses.{ip_str, ip_parse, octet, last_in_subnet, network_of}
use faultynet.Addresses.Subnets.{network-lt}
use faultynet.Addresses.Parsing.{ip_parse-ip_str}
use faultynet.Emulation.{Param, text, with_prefix}

Without-append : (sep : ℕ) (a b : String) → Without sep a → Without sep b → Without sep (a <> b)
Without-append sep String.[] b p q = rw append.nil q
Without-append sep (String.◌∷◌ c a) b p q = rw append.cons (p.0, Without-append sep a b p.1 q)

ip_str-Without : (ip : ℕ) → Without 47 (ip_str ip)
unfolding ip_str cat
ip_str-Without ip =
    let part : (k : ℕ) → Without 47 (show_ℕ (octet ip k)) =
      λ k. show_ℕ-Without 47 (octet ip k) (omega arith) in
    let three = Without-append 47 "." _ (refl, tt) (part 0) in
    let two =
      Without-append 47 "." _ (refl, tt)
        (Without-append 47 (show_ℕ (octet ip 8)) _ (part 8) three) in
    let one =
      Without-append 47 "." _ (refl, tt)
        (Without-append 47 (show_ℕ (octet ip 16)) _ (part 16) two) in
    Without-append 47 (show_ℕ (octet ip 24)) _ (part 24) one

slash_first : (s : String) → "/" <> s ≡ String.◌∷◌ "/" s
slash_first s = append.cons "/" "" s ∙ ap (λ t. String.◌∷◌ "/" t) (append.nil s)

abbrev front : List String → String
front [] = ""
front (s ∷ l) = s

split-with_prefix :
    (ip prefix_len : ℕ) → front (split_on 47 (with_prefix (ip_str ip) prefix_len)) ≡ ip_str ip
unfolding cat
split-with_prefix ip prefix_len =
    ap (λ s. front (split_on 47 (ip_str ip <> s))) (slash_first (show_ℕ prefix_len))
    ∙ ap front (split_on-append 47 (ip_str ip) "/" (show_ℕ prefix_len) refl (ip_str-Without ip))

-- The text in front of the prefix
with_prefix-injective :
    (m n prefix_len : ℕ)
    → m < 2 ^ 32
    → n < 2 ^ 32
    → with_prefix (ip_str m) prefix_len ≡ with_prefix (ip_str n) prefix_len
    → m ≡ n
with_prefix-injective m n prefix_len hm hn e =
    let same : ip_str m ≡ ip_str n =
      sym (split-with_prefix m prefix_len)
      ∙ ap (λ s. front (split_on 47 s)) e
      ∙ split-with_prefix n prefix_len in
    let read = sym (ip_parse-ip_str m hm) ∙ ap ip_parse same ∙ ip_parse-ip_str n hn in
    ap pos_part (ok-injective read)

-- The addresses of so many numbers from the first on.
abbrev pub addresses_from : ℕ → ℕ → ℕ → ℕ → List (Option Param)
addresses_from base prefix_len i zero = []
addresses_from base prefix_len i (suc n) =
    some (text (with_prefix (ip_str (network_of prefix_len base + i)) prefix_len))
    ∷ addresses_from base prefix_len (i + 1) n

get_elem?-addresses_from :
    (base prefix_len i n k : ℕ)
    → k < n
    → get_elem? (addresses_from base prefix_len i n) k
      ≡ some (some (text (with_prefix (ip_str (network_of prefix_len base + (i + k))) prefix_len)))
get_elem?-addresses_from base prefix_len i zero k h = absurd (omega (arith, h))
get_elem?-addresses_from base prefix_len i (suc n) zero h =
    ap (λ j. some (some (text (with_prefix (ip_str (network_of prefix_len base + j)) prefix_len))))
      (omega arith)
get_elem?-addresses_from base prefix_len i (suc n) (suc k) h =
    get_elem?-addresses_from base prefix_len (i + 1) n k (omega (arith, h))
    ∙ ap
        (λ j. some (some (text (with_prefix (ip_str (network_of prefix_len base + j)) prefix_len))))
        (omega arith)

abbrev text_of : Option (Option Param) → String
text_of (some (some (text s))) = s
text_of _ = ""

-- No address is given to two hosts.
pub addresses_distinct :
    (base prefix_len i n j k : ℕ)
    → i + n ≤ last_in_subnet prefix_len + 1
    → j < n
    → k < n
    → get_elem? (addresses_from base prefix_len i n) j
      ≡ get_elem? (addresses_from base prefix_len i n) k
    → j ≡ k
addresses_distinct base prefix_len i n j k room hj hk e =
    let same = ap text_of (
      sym (get_elem?-addresses_from base prefix_len i n j hj)
      ∙ e
      ∙ get_elem?-addresses_from base prefix_len i n k hk) in
    let low : (m : ℕ) → m < n → network_of prefix_len base + (i + m) < 2 ^ 32 =
      λ m h. network-lt (i + m) prefix_len base (omega (arith, room, h)) in
    omega (arith, with_prefix-injective _ _ prefix_len (low j hj) (low k hk) same)
