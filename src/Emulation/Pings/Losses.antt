-- ===== src/Emulation/Pings/Losses.antt =====
-- How many packets `ping` of mininet/net.py counts, and how many of them as lost.
use faultynet.Shared.{
  ℕ, ◌+◌, ◌-◌, ◌≤◌, ◌==◌, ◌≡◌, refl, ap, ◌∙◌, Bool, Bool-cases, inl, inr, List, [], ◌∷◌, ◌++◌,
  Result, ok, arith, if◌then◌else◌, ◌>>=◌,
}
use faultynet.Shells.Pids.{Codes}
use faultynet.Emulation.Pings.{add_reply, result_of, ping_from, ping_each, ping}

module _ (reply : ℕ → ℕ → Codes) (has_intfs : ℕ → Bool) where
  -- The pairs that are asked, in order, by what their replies say.
  abbrev pub replies_of : ℕ → List ℕ → List (ℕ × ℕ)
  replies_of node [] = []
  replies_of node (dest ∷ dests) =
      let rest = replies_of node dests in
      if node == dest then rest else result_of reply has_intfs node dest ∷ rest

  abbrev pub all_replies : List ℕ → List ℕ → List (ℕ × ℕ)
  all_replies [] hosts = []
  all_replies (node ∷ nodes) hosts = replies_of node hosts ++ all_replies nodes hosts

-- The packets sent, and those lost.
abbrev pub sent_in : List (ℕ × ℕ) → ℕ
sent_in [] = 0
sent_in ((sent, received) ∷ replies) = sent + sent_in replies

abbrev pub lost_in : List (ℕ × ℕ) → ℕ
lost_in [] = 0
lost_in ((sent, received) ∷ replies) = (sent - received) + lost_in replies

-- No reply claims more packets than were sent.
abbrev pub IsSound : List (ℕ × ℕ) → Type 0
IsSound [] = Unit
IsSound ((sent, received) ∷ replies) = (received ≤ sent) × IsSound replies

lost-le-sent : (replies : List (ℕ × ℕ)) → lost_in replies ≤ sent_in replies
lost-le-sent [] = omega arith
lost-le-sent ((sent, received) ∷ replies) = omega (arith, lost-le-sent replies)

sums-append :
    (xs ys : List (ℕ × ℕ))
    → (sent_in (xs ++ ys) ≡ sent_in xs + sent_in ys)
      × (lost_in (xs ++ ys) ≡ lost_in xs + lost_in ys)
sums-append [] ys = (omega arith, omega arith)
sums-append ((sent, received) ∷ xs) ys =
    let (a, b) = sums-append xs ys in (omega (arith, a), omega (arith, b))

IsSound-append : (xs ys : List (ℕ × ℕ)) → IsSound (xs ++ ys) → IsSound xs × IsSound ys
IsSound-append [] ys h = (tt, h)
IsSound-append (r ∷ xs) ys h = let (a, b) = IsSound-append xs ys h.1 in ((h.0, a), b)

totals : (p q l m : ℕ) → p ≡ q → l ≡ m → ◌≡◌ {A = Result (ℕ × ℕ)} (ok (p, l)) (ok (q, m))
totals p q l m e f = rw (e, f) refl

add_reply_sound :
    (sent received packets lost : ℕ)
    → received ≤ sent
    → add_reply (sent, received) (packets, lost) ≡ ok (packets + sent, lost + (sent - received))
add_reply_sound sent received packets lost h = ground (arith, h)

module _ (reply : ℕ → ℕ → Codes) (has_intfs : ℕ → Bool) where
  abbrev from_here : ℕ → List ℕ → List (ℕ × ℕ)
  from_here = replies_of reply has_intfs

  from_counts :
      (node : ℕ) (dests : List ℕ) (packets lost : ℕ)
      → IsSound (from_here node dests)
      → ping_from reply has_intfs node dests (packets, lost)
        ≡ ok (packets + sent_in (from_here node dests), lost + lost_in (from_here node dests))
  unfolding ping_from
  from_counts node [] packets lost h =
      totals packets (packets + 0) lost (lost + 0) (omega arith) (omega arith)
  from_counts node (dest ∷ dests) packets lost h = elim (Bool-cases (node == dest)) [
    | inl e ↦ rw e (from_counts node dests packets lost (rw e at h))
    | inr e ↦
        let sound : IsSound (result_of reply has_intfs node dest ∷ from_here node dests) =
          rw e at h in
        let (sent, received) = result_of reply has_intfs node dest in
        let rest = from_here node dests in
        rw e (
          ap (λ r. r >>= ping_from reply has_intfs node dests)
            (add_reply_sound sent received packets lost sound.0)
          ∙ from_counts node dests (packets + sent) (lost + (sent - received)) sound.1
          ∙ totals (packets + sent + sent_in rest) (packets + (sent + sent_in rest))
              (lost + (sent - received) + lost_in rest) (lost + ((sent - received) + lost_in rest))
              (omega arith) (omega arith))
  ]

  each_counts :
      (nodes hosts : List ℕ) (packets lost : ℕ)
      → IsSound (all_replies reply has_intfs nodes hosts)
      → ping_each reply has_intfs nodes hosts (packets, lost)
        ≡ ok (
          packets + sent_in (all_replies reply has_intfs nodes hosts),
          lost + lost_in (all_replies reply has_intfs nodes hosts),
        )
  unfolding ping_each
  each_counts [] hosts packets lost h =
      totals packets (packets + 0) lost (lost + 0) (omega arith) (omega arith)
  each_counts (node ∷ nodes) hosts packets lost h =
      let here = from_here node hosts in
      let rest = all_replies reply has_intfs nodes hosts in
      let (sound, sounds) = IsSound-append here rest h in
      let (a, b) = sums-append here rest in
      ap (λ r. r >>= ping_each reply has_intfs nodes hosts)
        (from_counts node hosts packets lost sound)
      ∙ each_counts nodes hosts (packets + sent_in here) (lost + lost_in here) sounds
      ∙ totals (packets + sent_in here + sent_in rest) (packets + sent_in (here ++ rest))
          (lost + lost_in here + lost_in rest) (lost + lost_in (here ++ rest)) (omega (arith, a))
          (omega (arith, b))

  -- Where no reply claims more packets than were sent, `ping` counts those of all ordered pairs of
  -- different hosts of which the second has an interface, and never more as lost than as sent: the
  -- loss is between 0 and 100 percent.
  ping_counts :
      (hosts : List ℕ)
      → IsSound (all_replies reply has_intfs hosts hosts)
      → (ping reply has_intfs hosts
          ≡ ok (
            sent_in (all_replies reply has_intfs hosts hosts),
            lost_in (all_replies reply has_intfs hosts hosts),
          ))
        × (lost_in (all_replies reply has_intfs hosts hosts)
            ≤ sent_in (all_replies reply has_intfs hosts hosts))
  unfolding ping
  ping_counts hosts h =
      let replies = all_replies reply has_intfs hosts hosts in
      (
        each_counts hosts hosts 0 0 h
            ∙ totals (0 + sent_in replies) (sent_in replies) (0 + lost_in replies) (lost_in replies)
                (omega arith) (omega arith),
        lost-le-sent replies,
      )
