-- ===== src/Placement/Bins.antt =====
-- `SwitchBinPlacer.bin` (examples/cluster.py): every node gets a server, and all servers about as many.
use native.Mathlib.Nat.{mod-lt, div-add-mod'}
use faultynet.Shared.{
  ℕ, zero, suc, ◌+◌, ◌*◌, ◌/◌, ◌%◌, ◌≤◌, ◌<◌, ◌==◌, ◌≡◌, refl, sym, ap, ◌∙◌, String, str_eq, eq_iff,
  true, false, none, some, List, [], ◌∷◌, ◌++◌, append_nil, append_assoc, map, length,
  length-append, take, Dict, lookup, insert, lookup-insert, values, ok, Bool-cases, inl, inr, arith,
  if◌then◌else◌,
}
use faultynet.Placement.{has, base_sizes, add_one, replicate, tickets, assign, bin}

-- No element occurs twice.
abbrev pub IsDistinct : List String → Type 0
IsDistinct [] = Unit
IsDistinct (x ∷ xs) = (has x xs ≡ false) × IsDistinct xs

-- How often an element occurs.
unfoldable pub occurrences : String → List String → ℕ
occurrences x [] = 0
occurrences x (y ∷ ys) = let rest = occurrences x ys in if str_eq y x then rest + 1 else rest

lookup-base_sizes :
    (q : ℕ) (servers : List String) (sizes : Dict ℕ) (s : String)
    → lookup s (base_sizes q servers sizes) ≡ (if has s servers then some q else lookup s sizes)
unfolding base_sizes
lookup-base_sizes q [] sizes s = refl
lookup-base_sizes q (t ∷ servers) sizes s = ground (
  arith,
  lookup-base_sizes q servers (insert t q sizes) s,
  lookup-insert t s q sizes,
  eq_iff t s,
  eq_iff s t,
)

-- Adding one to the sizes of some servers, each of which has the size q.
add_one-sizes :
    (q : ℕ) (first : List String) (sizes : Dict ℕ)
    → IsDistinct first
    → ((s : String) → has s first ≡ true → lookup s sizes ≡ some q)
    → (sizes1 : Dict ℕ) × (add_one first sizes ≡ ok sizes1)
      × ((s : String) → lookup s sizes1 ≡ (if has s first then some (q + 1) else lookup s sizes))
unfolding add_one
add_one-sizes q [] sizes distinct known = (sizes, refl, λ s. refl)
add_one-sizes q (t ∷ first) sizes distinct known =
    let here : lookup t sizes ≡ some q = known t (ground (arith, eq_iff t t)) in
    let (sizes1, run, after) = add_one-sizes q first (insert t (q + 1) sizes) distinct.1 (λ s h.
      ground (arith, lookup-insert t s (q + 1) sizes, eq_iff t s, h, distinct.0, known s)) in
    (
      sizes1,
      rw (add_one, here) run,
      (λ s.
          ground
            (arith, after s, lookup-insert t s (q + 1) sizes, eq_iff t s, eq_iff s t, distinct.0)),
    )

-- The tickets, by the sizes.
unfoldable pub flat : (String → ℕ) → List String → List String
flat size [] = []
flat size (s ∷ servers) = replicate (size s) s ++ flat size servers

tickets-flat :
    (size : String → ℕ) (servers : List String) (sizes : Dict ℕ)
    → ((s : String) → has s servers ≡ true → lookup s sizes ≡ some (size s))
    → tickets servers sizes ≡ ok (flat size servers)
unfolding tickets flat
tickets-flat size [] sizes known = refl
tickets-flat size (s ∷ servers) sizes known =
    let here = known s (ground (arith, eq_iff s s)) in
    let rest = tickets-flat size servers sizes (λ t h. known t (ground (arith, h))) in
    rw (tickets, here, rest) refl

length-replicate : (n : ℕ) (s : String) → length (replicate n s) ≡ n
length-replicate zero s = refl
length-replicate (suc n) s = ap suc (length-replicate n s)

-- The size of a server: the first ones have one more.
abbrev pub size_in : ℕ → List String → String → ℕ
size_in q first s = if has s first then q + 1 else q

flat-cong :
    (f g : String → ℕ) (servers : List String)
    → ((s : String) → has s servers ≡ true → f s ≡ g s)
    → flat f servers ≡ flat g servers
unfolding flat
flat-cong f g [] same = refl
flat-cong f g (s ∷ servers) same =
    let here = same s (ground (arith, eq_iff s s)) in
    let rest = flat-cong f g servers (λ t h. same t (ground (arith, h))) in rw (here, rest) refl

length-flat :
    (q r : ℕ) (servers : List String)
    → IsDistinct servers
    → r ≤ length servers
    → length (flat (size_in q (take r servers)) servers) ≡ q * length servers + r
unfolding flat
length-flat q r [] distinct low = omega (arith, low)
length-flat q zero (s ∷ servers) distinct low =
    let rest = length-flat q zero servers distinct.1 (omega arith) in
    length-append (replicate q s) (flat (size_in q []) servers)
    ∙ rw (length-replicate q s, rest) (grind arith)
length-flat q (suc r) (s ∷ servers) distinct low =
    let first = s ∷ take r servers in
    let here : size_in q first s ≡ q + 1 = ground (arith, eq_iff s s) in
    let same : flat (size_in q first) servers ≡ flat (size_in q (take r servers)) servers =
      flat-cong (size_in q first) (size_in q (take r servers)) servers (λ t h.
        ground (arith, eq_iff t s, distinct.0, h, λ (e : t ≡ s). ap (λ x. has x servers) e)) in
    let rest = length-flat q r servers distinct.1 (omega (arith, low)) in
    length-append (replicate (size_in q first s) s) (flat (size_in q first) servers)
    ∙ rw (length-replicate (size_in q first s) s, here, same, rest) (grind arith)

occurrences-append :
    (s : String) (xs ys : List String)
    → occurrences s (xs ++ ys) ≡ occurrences s xs + occurrences s ys
unfolding occurrences
occurrences-append s [] ys = omega arith
occurrences-append s (x ∷ xs) ys = ground (arith, occurrences-append s xs ys)

occurrences-replicate :
    (s t : String) (n : ℕ) → occurrences s (replicate n t) ≡ (if str_eq t s then n else 0)
unfolding occurrences
occurrences-replicate s t zero = ground arith
occurrences-replicate s t (suc n) = ground (arith, occurrences-replicate s t n)

-- A server that is not among those with tickets has none.
no_tickets :
    (size : String → ℕ) (s : String) (servers : List String)
    → has s servers ≡ false
    → occurrences s (flat size servers) ≡ 0
unfolding flat
no_tickets size s [] h = unfold occurrences in refl
no_tickets size s (t ∷ servers) h =
    let other : str_eq t s ≡ false = ground (arith, eq_iff t s, eq_iff s t, h) in
    let rest = no_tickets size s servers (ground (arith, h)) in
    occurrences-append s (replicate (size t) t) (flat size servers)
    ∙ rw (occurrences-replicate s t (size t), other, rest) refl

occurrences-flat :
    (size : String → ℕ) (s : String) (servers : List String)
    → IsDistinct servers
    → has s servers ≡ true
    → occurrences s (flat size servers) ≡ size s
unfolding flat
occurrences-flat size s [] distinct h = ground (arith, h)
occurrences-flat size s (t ∷ servers) distinct h = elim (Bool-cases (str_eq t s)) [
  | inl same ↦
      let here = (eq_iff t s).0 same in
      let rest = no_tickets size s servers (rw here at distinct.0) in
      occurrences-append s (replicate (size t) t) (flat size servers)
      ∙ rw (occurrences-replicate s t (size t), same, rest, here) (omega arith)
  | inr other ↦
      let rest =
        occurrences-flat size s servers distinct.1
          (ground (arith, eq_iff t s, eq_iff s t, h, other)) in
      occurrences-append s (replicate (size t) t) (flat size servers)
      ∙ rw (occurrences-replicate s t (size t), other, rest) (omega arith)
]

-- The names of a dictionary.
abbrev pub keys {ℓ} : {V : Type ℓ} → Dict V → List String
keys = map (λ (k, _). k)

insert-missing :
    (k v : String) (d : Dict String)
    → lookup k d ≡ none
    → (keys (insert k v d) ≡ keys d ++ (k ∷ [])) × (values (insert k v d) ≡ values d ++ (v ∷ []))
unfolding insert lookup values
insert-missing k v [] h = (refl, refl)
insert-missing k v ((j, w) ∷ d) h =
    let other : str_eq j k ≡ false = ground (arith, h) in
    let (ks, vs) = insert-missing k v d (ground (arith, h, other)) in
    (rw other (ap (λ l. j ∷ l) ks), rw other (ap (λ l. w ∷ l) vs))

assign-all :
    (nodes ts : List String) (d : Dict String)
    → IsDistinct nodes
    → length ts ≡ length nodes
    → ((n : String) → has n nodes ≡ true → lookup n d ≡ none)
    → (keys (assign nodes ts d) ≡ keys d ++ nodes) × (values (assign nodes ts d) ≡ values d ++ ts)
unfolding assign
assign-all [] [] d distinct same new = (sym (append_nil (keys d)), sym (append_nil (values d)))
assign-all [] (t ∷ ts) d distinct same new = absurd (omega (arith, same))
assign-all (n ∷ nodes) [] d distinct same new = absurd (omega (arith, same))
assign-all (n ∷ nodes) (t ∷ ts) d distinct same new =
    let (ks, vs) = insert-missing n t d (new n (ground (arith, eq_iff n n))) in
    let (ks', vs') = assign-all nodes ts (insert n t d) distinct.1 (omega (arith, same)) (λ j h.
      ground (arith, lookup-insert n j t d, eq_iff n j, eq_iff j n, distinct.0, h, new j)) in
    (
      ks' ∙ ap (λ l. l ++ nodes) ks ∙ append_assoc (keys d) (n ∷ []) nodes,
      vs' ∙ ap (λ l. l ++ ts) vs ∙ append_assoc (values d) (t ∷ []) ts,
    )

assign_new :
    (nodes ts : List String)
    → IsDistinct nodes
    → length ts ≡ length nodes
    → (keys (assign nodes ts []) ≡ nodes) × (values (assign nodes ts []) ≡ ts)
unfolding values lookup
assign_new nodes ts distinct same = assign-all nodes ts [] distinct same (λ n h. refl)

has-take : (s : String) (r : ℕ) (xs : List String) → has s (take r xs) ≡ true → has s xs ≡ true
has-take s zero xs h = ground (arith, h)
has-take s (suc r) [] h = h
has-take s (suc r) (x ∷ xs) h = ground (arith, h, has-take s r xs)

take-IsDistinct : (r : ℕ) (xs : List String) → IsDistinct xs → IsDistinct (take r xs)
take-IsDistinct zero xs h = tt
take-IsDistinct (suc r) [] h = tt
take-IsDistinct (suc r) (x ∷ xs) h = (
  elim (Bool-cases (has x (take r xs))) [
    | inl there ↦ ground (arith, has-take x r xs there, h.0)
    | inr absent ↦ absent
  ],
  take-IsDistinct r xs h.1,
)

-- The sizes of the bins.
sized :
    (q r : ℕ) (servers : List String)
    → IsDistinct servers
    → (sizes : Dict ℕ) × (add_one (take r servers) (base_sizes q servers []) ≡ ok sizes)
      × ((s : String) → has s servers ≡ true → lookup s sizes ≡ some (size_in q (take r servers) s))
sized q r servers distinct =
    let (sizes, added, after) =
      add_one-sizes q (take r servers) (base_sizes q servers [])
        (take-IsDistinct r servers distinct)
        (λ s h. lookup-base_sizes q servers [] s ∙ rw (has-take s r servers h) refl) in
    (sizes, added, (λ s h. ground (arith, after s, lookup-base_sizes q servers [] s, h)))

bin_run :
    (nodes servers ts : List String) (sizes : Dict ℕ)
    → 1 ≤ length servers
    → add_one
        (take (length nodes % length servers) servers)
        (base_sizes (length nodes / length servers) servers [])
      ≡ ok sizes
    → tickets servers sizes ≡ ok ts
    → bin nodes servers ≡ ok (assign nodes ts [])
unfolding bin
bin_run nodes servers ts sizes some_server added issued =
    let positive : (length servers == 0) ≡ false = ground (arith, some_server) in
    rw (positive, added, issued) refl

-- Where neither a node nor a server is named twice and there is a server, `bin` gives every node, in
-- order, one of the servers. Each server gets the number of nodes divided by the number of servers,
-- and the first ones, as many as the remainder, one more.
pub bin_even :
    (nodes servers : List String)
    → IsDistinct nodes
    → IsDistinct servers
    → 1 ≤ length servers
    → (d : Dict String) × (bin nodes servers ≡ ok d)
      × (keys d ≡ nodes)
      × (length (values d) ≡ length nodes)
      × ((s : String)
          → has s servers ≡ true
          → occurrences s (values d) ≡ (
              if has s (take (length nodes % length servers) servers)
              then length nodes / length servers + 1
              else length nodes / length servers))
bin_even nodes servers distinct_nodes distinct some_server =
    let q = length nodes / length servers in
    let r = length nodes % length servers in
    let low : r < length servers = mod-lt (length nodes) some_server in
    let size = size_in q (take r servers) in
    let (sizes, added, known) = sized q r servers distinct in
    let issued = tickets-flat size servers sizes known in
    let all : length (flat size servers) ≡ length nodes =
      length-flat q r servers distinct (omega (arith, low))
      ∙ div-add-mod' (length nodes) (length servers) in
    let (ks, vs) = assign_new nodes (flat size servers) distinct_nodes all in
    (
      assign nodes (flat size servers) [],
      bin_run nodes servers (flat size servers) sizes some_server added issued,
      ks,
      ap length vs ∙ all,
      (λ s h. ap (occurrences s) vs ∙ occurrences-flat size s servers distinct h),
    )
