-- ===== src/Shells/Fuel.antt =====
-- The rounds in which `monitor` of mininet/node.py waits for the rest of a mark.
use faultynet.Shared.{
  ℕ, zero, suc, ◌≤◌, ◌<◌, ◌≡◌, ◌≢◌, ◌⊎◌, refl, sym, ap, ◌∙◌, Option, Option-cases, none, some, [],
  ◌∷◌, ◌++◌, List, length, length-append, drop, concat, arith, ltb, Bool-cases, inl, inr, true,
  ◌>>?◌,
}
use faultynet.Shells.{Shell, read, split_at, os_read, await_marker, found_or, reads_left}
use faultynet.Shells.Pids.{Codes, first_marker}
use faultynet.Shells.Reading.{read_filled, read_buffered}

abbrev state_of : Shell → Option (Codes × Shell) → Shell
state_of s none = s
state_of s (some (out, s1)) = s1

length-drop : (n : ℕ) (xs : Codes) → length (drop n xs) ≤ length xs
length-drop zero xs = omega arith
length-drop (suc n) [] = omega arith
length-drop (suc n) (x ∷ xs) = omega (arith, length-drop n xs)

drop_shrinks : (n : ℕ) (xs : Codes) → suc n ≤ length xs → length (drop (suc n) xs) < length xs
drop_shrinks n [] h = absurd (omega (arith, h))
drop_shrinks n (x ∷ xs) h = omega (arith, length-drop n xs)

none-ne-some : {A : Type 0} {a : A} → none ≢ some a
none-ne-some h = cc

list_cases : (l : List Codes) → (l ≡ []) ⊎ ((c : Codes) × (r : List Codes) × (l ≡ c ∷ r))
list_cases [] = inl refl
list_cases (c ∷ r) = inr (c, r, refl)

read_blocks :
    (s : Shell)
    → ltb (length s.readbuf) 1024 ≡ true
    → os_read s.incoming s ≡ none
    → read 1024 s ≡ none
unfolding read
read_blocks s short e = rw (short, e) refl

-- What a call of `read` leaves.
shrinks : (s s1 : Shell) (out : Codes) → read 1024 s ≡ some (out, s1) → reads_left s1 < reads_left s
shrinks s s1 out e = elim (Bool-cases (ltb (length s.readbuf) 1024)) [
  | inr enough ↦
      let same : (split_at 1024 s).1 ≡ s1 =
        ap (state_of s) (sym (read_buffered 1024 s enough) ∙ e) in
      let less = drop_shrinks 1023 s.readbuf (ground (arith, enough)) in
      omega (arith, ap reads_left same, less)
  | inl short ↦ elim (list_cases s.incoming) [
    | inl nothing_more ↦
        let blocked = read_blocks s short (ap (λ i. os_read i s) nothing_more) in
        absurd (none-ne-some (sym blocked ∙ e))
    | inr (c, r, next) ↦
        let t : Shell = record s { readbuf = s.readbuf ++ c; incoming = r } in
        let same : (split_at 1024 t).1 ≡ s1 =
          ap (state_of s) (sym (read_filled 1024 s t short (ap (λ i. os_read i s) next)) ∙ e) in
        omega (
          arith,
          ap reads_left same,
          length-drop 1024 t.readbuf,
          length-append s.readbuf c,
          length-append c (concat r),
          ap length next,
          ap (λ l. length (concat l)) next,
        )
  ]
]

abbrev next_round : ℕ → Codes → Option (Codes × Shell) → Option (Codes × Shell)
next_round fuel got o = o >>? λ (next, s1). await_marker fuel (got ++ next) s1

marker_missing :
    (fuel : ℕ) (got : Codes) (s : Shell)
    → first_marker got ≡ none
    → await_marker (suc fuel) got s ≡ next_round fuel got (read 1024 s)
unfolding await_marker
marker_missing fuel got s e =
    ap (λ o. found_or o (some (got, s)) (next_round fuel got (read 1024 s))) e

marker_there :
    (fuel : ℕ) (got : Codes) (s : Shell) (pid : Codes)
    → first_marker got ≡ some pid
    → await_marker (suc fuel) got s ≡ some (got, s)
unfolding await_marker
marker_there fuel got s pid e =
    ap (λ o. found_or o (some (got, s)) (next_round fuel got (read 1024 s))) e

-- More rounds than `take_pid` provides for make no difference: where those end without the mark, the shell
-- has blocked.
await_marker_settled :
    (n m : ℕ) (got : Codes) (s : Shell)
    → reads_left s ≤ n
    → reads_left s ≤ m
    → await_marker n got s ≡ await_marker m got s
unfolding await_marker
await_marker_settled zero m got s hn hm = absurd (omega (arith, hn))
await_marker_settled (suc n) zero got s hn hm = absurd (omega (arith, hm))
await_marker_settled (suc n) (suc m) got s hn hm = elim (Option-cases (first_marker got)) [
  | inr (pid, e) ↦ marker_there n got s pid e ∙ sym (marker_there m got s pid e)
  | inl e ↦
      marker_missing n got s e
      ∙ elim (Option-cases (read 1024 s)) [
        | inl blocked ↦ ap (next_round n got) blocked ∙ sym (ap (next_round m got) blocked)
        | inr ((next, s1), more) ↦
            let less = shrinks s s1 next more in
            ap (next_round n got) more
            ∙ await_marker_settled n m (got ++ next) s1 (omega (arith, hn, less))
                (omega (arith, hm, less))
            ∙ sym (ap (next_round m got) more)
      ]
      ∙ sym (marker_missing m got s e)
]
