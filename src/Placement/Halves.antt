-- ===== src/Placement/Halves.antt =====
-- Which hosts a `HostSwitchBinPlacer` (examples/cluster.py) can place.
use native.Mathlib.Nat.{mod-eq_of_lt, div-lt_iff_lt-mul, le-div_iff_mul-le}
use faultynet.Shared.{
  ltb, ℕ, zero, suc, ◌+◌, ◌*◌, ◌/◌, ◌%◌, ◌≤◌, ◌<◌, ◌==◌, ◌≡◌, refl, leb, String, true, false, List,
  [], ◌∷◌, length, take, drop, get_elem?, All, ok, err, key_error, none, some, Option-cases, inl,
  inr, eq_iff, Bool-cases, arith, if◌then◌else◌,
}
use faultynet.Placement.{
  Placer, HostSwitchBins, has, at_least_one, host_switch_bins, server_at, place_bin, place_all,
}

drop-cons :
    {A : Type 0} (i : ℕ) (xs : List A) (x : A)
    → get_elem? xs i ≡ some x
    → drop i xs ≡ x ∷ drop (suc i) xs
drop-cons i [] x h = ground (arith, h)
drop-cons zero (y ∷ xs) x h = ground (arith, h)
drop-cons (suc i) (y ∷ xs) x h = drop-cons i xs x h

in_range : {A : Type 0} (i : ℕ) (xs : List A) (x : A) → get_elem? xs i ≡ some x → i < length xs
in_range i [] x h = ground (arith, h)
in_range zero (y ∷ xs) x h = omega arith
in_range (suc i) (y ∷ xs) x h = omega (arith, in_range i xs x h)

out_of_range : {A : Type 0} (i : ℕ) (xs : List A) → get_elem? xs i ≡ none → length xs ≤ i
out_of_range i [] h = omega arith
out_of_range zero (y ∷ xs) h = ground (arith, h)
out_of_range (suc i) (y ∷ xs) h = omega (arith, out_of_range i xs h)

-- A placer of one host to a server, before its host of the number given.
abbrev one_each : Placer → ℕ → ℕ → ℕ → ℕ → ℕ → HostSwitchBins
one_each p sbin cbin i sind cind = record {
  placer = p;
  hbin = 1;
  sbin = sbin;
  cbin = cbin;
  hind = i;
  sind = sind;
  cind = cind;
}

server_at_one :
    (i : ℕ) (servers : List String) (s : String)
    → get_elem? servers i ≡ some s
    → server_at i 1 servers ≡ ok s
unfolding server_at
server_at_one i servers s h =
    let whole : i % 1 ≡ 0 = omega arith in
    let same : i / 1 ≡ i = omega arith in rw (whole, same, h) refl

server_at_missing :
    (i : ℕ) (servers : List String)
    → get_elem? servers i ≡ none
    → server_at i 1 servers ≡ err key_error
unfolding server_at
server_at_missing i servers h =
    let whole : i % 1 ≡ 0 = omega arith in
    let same : i / 1 ≡ i = omega arith in rw (whole, same, h) refl

module _ (self : HostSwitchBins) (n : String) (is_host : has n self.placer.hosts ≡ true) where
  place_bin_ok :
      (s : String)
      → server_at self.hind self.hbin self.placer.servers ≡ ok s
      → place_bin n self ≡ ok (s, record self { hind = self.hind + 1 })
  unfolding place_bin
  place_bin_ok s h = rw (is_host, h) refl

  place_bin_err :
      server_at self.hind self.hbin self.placer.servers ≡ err key_error
      → place_bin n self ≡ err key_error
  unfolding place_bin
  place_bin_err h = rw (is_host, h) refl

module _ (p : Placer) (sbin cbin sind cind : ℕ) where
  abbrev at_host : ℕ → HostSwitchBins
  at_host i = one_each p sbin cbin i sind cind

  -- The hosts get the servers behind the one of a number, one each.
  enough :
      (ns : List String) (i : ℕ)
      → All (λ n. has n p.hosts ≡ true) ns
      → length ns + i ≤ length p.servers
      → place_all ns (at_host i) ≡ ok (take (length ns) (drop i p.servers))
  unfolding place_all
  enough [] i are_hosts room = refl
  enough (n ∷ ns) i are_hosts room = elim (Option-cases (get_elem? p.servers i)) [
    | inl missing ↦ absurd (omega (arith, out_of_range i p.servers missing, room))
    | inr (s, found) ↦
        let here = place_bin_ok (at_host i) n are_hosts.0 s (server_at_one i p.servers s found) in
        let next : i + 1 ≡ suc i = omega arith in
        let rest = enough ns (suc i) are_hosts.1 (omega (arith, room)) in
        rw (here, next, rest, drop-cons i p.servers s found) refl
  ]

  -- With more hosts than servers left, the host behind the last server is refused.
  too_many :
      (ns : List String) (i : ℕ)
      → All (λ n. has n p.hosts ≡ true) ns
      → i ≤ length p.servers
      → length p.servers < length ns + i
      → place_all ns (at_host i) ≡ err key_error
  unfolding place_all
  too_many [] i are_hosts low over = absurd (omega (arith, low, over))
  too_many (n ∷ ns) i are_hosts low over = elim (Option-cases (get_elem? p.servers i)) [
    | inl missing ↦
        rw (place_bin_err (at_host i) n are_hosts.0 (server_at_missing i p.servers missing)) refl
    | inr (s, found) ↦
        let here = place_bin_ok (at_host i) n are_hosts.0 s (server_at_one i p.servers s found) in
        let next : i + 1 ≡ suc i = omega arith in
        let rest =
          too_many ns (suc i) are_hosts.1 (in_range i p.servers s found) (omega (arith, over)) in
        rw (here, next, rest) refl
  ]

at_first :
    (bin : ℕ) (servers : List String) (s : String)
    → get_elem? servers 0 ≡ some s
    → 2 ≤ bin
    → server_at 0 bin servers ≡ ok s
unfolding server_at
at_first bin servers s h wide =
    let positive : (bin == 0) ≡ false = ground (arith, wide) in
    let whole : 0 % bin ≡ 0 = omega arith in
    let none_yet : 0 / bin ≡ 0 = omega arith in rw (positive, whole, none_yet, h) refl

at_first_none :
    (bin : ℕ) (servers : List String)
    → get_elem? servers 0 ≡ none
    → 2 ≤ bin
    → server_at 0 bin servers ≡ err key_error
unfolding server_at
at_first_none bin servers h wide =
    let positive : (bin == 0) ≡ false = ground (arith, wide) in
    let whole : 0 % bin ≡ 0 = omega arith in
    let none_yet : 0 / bin ≡ 0 = omega arith in rw (positive, whole, none_yet, h) refl

at_second :
    (bin : ℕ) (servers : List String) → 2 ≤ bin → server_at (0 + 1) bin servers ≡ err key_error
unfolding server_at
at_second bin servers wide =
    let positive : (bin == 0) ≡ false = ground (arith, wide) in
    let left : (1 % bin == 0) ≡ false = rw (mod-eq_of_lt wide) refl in rw (positive, left) refl

-- Two hosts to a server: the second one has no server.
second_refused :
    (self : HostSwitchBins) (m n : String) (ns : List String)
    → has m self.placer.hosts ≡ true
    → has n self.placer.hosts ≡ true
    → self.hind ≡ 0
    → 2 ≤ self.hbin
    → place_all (m ∷ n ∷ ns) self ≡ err key_error
unfolding place_all
second_refused self m n ns one two first wide =
    elim (Option-cases (get_elem? self.placer.servers 0)) [
      | inl missing ↦
          rw
            (place_bin_err self m one
              (rw first (at_first_none self.hbin self.placer.servers missing wide)))
            refl
      | inr (s, found) ↦
          let here =
            place_bin_ok self m one s
              (rw first (at_first self.hbin self.placer.servers s found wide)) in
          let next : HostSwitchBins = record self { hind = self.hind + 1 } in
          let refused =
            place_bin_err next n two (rw first (at_second self.hbin self.placer.servers wide)) in
          rw (here, refused) refl
    ]

has_more : (x y : String) (xs : List String) → has x xs ≡ true → has x (y ∷ xs) ≡ true
has_more x y xs h = ground (arith, h)

All-has_more :
    (y : String) (xs ns : List String)
    → All (λ n. has n xs ≡ true) ns
    → All (λ n. has n (y ∷ xs) ≡ true) ns
All-has_more y xs [] h = tt
All-has_more y xs (n ∷ ns) h = (has_more n y xs h.0, All-has_more y xs ns h.1)

All-has : (xs : List String) → All (λ n. has n xs ≡ true) xs
All-has [] = tt
All-has (x ∷ xs) = (ground (arith, eq_iff x x), All-has_more x xs xs (All-has xs))

small_quotient : (q : ℕ) → q < 2 → at_least_one q ≡ 1
small_quotient zero h = refl
small_quotient (suc q) h = omega (arith, h)

large_quotient : (q : ℕ) → 2 ≤ q → 2 ≤ at_least_one q
large_quotient zero h = absurd (omega (arith, h))
large_quotient (suc q) h = h

bin_one : (n c : ℕ) → 1 ≤ c → n < 2 * c → at_least_one (n / c) ≡ 1
bin_one n c some_server few =
    let small : n / c < 2 = (div-lt_iff_lt-mul some_server).1 few in small_quotient (n / c) small

bin_wide : (n c : ℕ) → 1 ≤ c → 2 * c ≤ n → 2 ≤ at_least_one (n / c)
bin_wide n c some_server many =
    let large : 2 ≤ n / c = (le-div_iff_mul-le some_server).1 many in large_quotient (n / c) large

two_refused :
    (self : HostSwitchBins) (ns : List String)
    → All (λ n. has n self.placer.hosts ≡ true) ns
    → self.hind ≡ 0
    → 2 ≤ length ns
    → 2 ≤ self.hbin
    → place_all ns self ≡ err key_error
two_refused self [] are_hosts first two wide = absurd (omega (arith, two))
two_refused self (m ∷ []) are_hosts first two wide = absurd (omega (arith, two))
two_refused self (m ∷ n ∷ ns) are_hosts first two wide =
    second_refused self m n ns are_hosts.0 are_hosts.1.0 first wide

-- With a server or more, a new `HostSwitchBinPlacer` places all hosts, asked for in their order, on the
-- first servers, one on each, where there are at least as many servers as hosts. With more hosts it
-- raises a KeyError on the way.
pub place_all-hosts :
    (p : Placer)
    → 1 ≤ length p.servers
    → (bins : HostSwitchBins) × (host_switch_bins p ≡ ok bins)
      × (place_all p.hosts bins ≡ (
          if leb (length p.hosts) (length p.servers)
          then ok (take (length p.hosts) p.servers)
          else err key_error))
unfolding host_switch_bins
place_all-hosts p some_server =
    let new : HostSwitchBins = record {
      placer = p;
      hbin = at_least_one (length p.hosts / length p.servers);
      sbin = at_least_one (length p.switches / length p.servers);
      cbin = at_least_one (length p.controllers / length p.servers);
      hind = 0;
      sind = 0;
      cind = 0;
    } in
    let made : host_switch_bins p ≡ ok new = ground (arith, some_server) in
    (
      new,
      made,
      elim (Bool-cases (leb (length p.hosts) (length p.servers))) [
        | inl fits ↦
            let one =
              bin_one (length p.hosts) (length p.servers) some_server (ground (arith, fits)) in
            rw (one, fits)
              (enough p new.sbin new.cbin 0 0 p.hosts 0 (All-has p.hosts) (ground (arith, fits)))
        | inr over ↦ elim (Bool-cases (ltb (length p.hosts) (2 * length p.servers))) [
          | inl few ↦
              let one =
                bin_one (length p.hosts) (length p.servers) some_server (ground (arith, few)) in
              rw (one, over)
                (too_many p new.sbin new.cbin 0 0 p.hosts 0 (All-has p.hosts) (omega arith)
                  (ground (arith, over)))
          | inr many ↦ rw over (
              two_refused new p.hosts (All-has p.hosts) refl (ground (arith, many, some_server))
                (bin_wide (length p.hosts) (length p.servers) some_server (ground (arith, many))))
        ]
      ],
    )
