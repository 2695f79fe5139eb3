-- ===== src/Shells/Reading.antt =====
-- What `read` of mininet/node.py returns and keeps.
use faultynet.Shared.{
  ℕ, ◌≤◌, ◌≡◌, ◌⊎◌, inl, inr, refl, sym, ap, ◌∙◌, some, ◌∷◌, ◌++◌, List, length, take, drop,
  take-drop, length-take, concat, append_assoc, arith, ltb, ltb→lt, Bool-cases, true, false,
}
use faultynet.Shells.{Shell, read, split_at, os_read}
use faultynet.Shells.Pids.{Codes}

-- All that is buffered or still to come.
abbrev pub pending : Shell → Codes
pending s = s.readbuf ++ concat s.incoming

split_keeps :
    (size : ℕ) (s : Shell) → pending s ≡ (split_at size s).0 ++ pending (split_at size s).1
split_keeps size s =
    ap (λ b. b ++ concat s.incoming) (sym (take-drop size s.readbuf))
    ∙ append_assoc (take size s.readbuf) (drop size s.readbuf) (concat s.incoming)

pub read_filled :
    (size : ℕ) (s s1 : Shell)
    → ltb (length s.readbuf) size ≡ true
    → os_read s.incoming s ≡ some s1
    → read size s ≡ some (split_at size s1)
unfolding read
read_filled size s s1 h e = rw (h, e) refl

pub read_buffered :
    (size : ℕ) (s : Shell)
    → ltb (length s.readbuf) size ≡ false
    → read size s ≡ some (split_at size s)
unfolding read
read_buffered size s h = rw h refl

-- Where enough is buffered or a call of the system returns, `read` returns. What it returns is at most
-- of the size asked for, and followed by all that it leaves for later it is all that was buffered or
-- to come before: no character is lost, repeated or moved.
read_conserves :
    (size : ℕ) (s : Shell)
    → (size ≤ length s.readbuf)
      ⊎ ((chunk : Codes) × (rest : List Codes) × (s.incoming ≡ chunk ∷ rest))
    → (out : Codes) × (s1 : Shell) × (read size s ≡ some (out, s1))
      × (length out ≤ size)
      × (pending s ≡ out ++ pending s1)
read_conserves size s can = elim (Bool-cases (ltb (length s.readbuf) size)) [
  | inr enough ↦ (
    take size s.readbuf,
    (split_at size s).1,
    read_buffered size s enough,
    length-take size s.readbuf,
    split_keeps size s,
  )
  | inl short ↦ elim can [
    | inl enough ↦ absurd (omega (arith, ltb→lt (length s.readbuf) size short, enough))
    | inr (chunk, rest, e) ↦
        let s1 = record s { readbuf = s.readbuf ++ chunk; incoming = rest } in
        (
          take size s1.readbuf,
          (split_at size s1).1,
          read_filled size s s1 short (ap (λ i. os_read i s) e),
          length-take size s1.readbuf,
          ap (λ i. s.readbuf ++ concat i) e
              ∙ sym (append_assoc s.readbuf chunk (concat rest))
              ∙ split_keeps size s1,
        )
  ]
]
