-- ===== src/Shells/Lines.antt =====
-- The lines that `readline` of mininet/node.py returns.
use faultynet.Shared.{
  ◌≤◌, ◌<◌, ◌==◌, ◌≡◌, refl, sym, ap, ◌∙◌, Option, none, some, [], ◌∷◌, ◌++◌, length, length-append,
  take_whole, drop, All, All-append, append_assoc, arith, false, ◌>>?◌,
}
use faultynet.Shells.{Shell, read, cut_line, readline, take_line}
use faultynet.Shells.Pids.{Codes}
use faultynet.Shells.Reading.{read_filled}

-- No line feed.
abbrev pub IsUnbroken : Codes → Type 0
IsUnbroken s = All (λ c. (c == 10) ≡ false) s

cut_line-IsUnbroken : (s : Codes) → IsUnbroken s → cut_line s ≡ none
unfolding cut_line
cut_line-IsUnbroken [] h = refl
cut_line-IsUnbroken (c ∷ s) h = rw (h.0, cut_line-IsUnbroken s h.1) refl

cut_line-append : (s after : Codes) → IsUnbroken s → cut_line (s ++ (10 ∷ after)) ≡ some (s, after)
unfolding cut_line
cut_line-append [] after h = refl
cut_line-append (c ∷ s) after h = rw (h.0, cut_line-append s after h.1) refl

-- The state before a call of the system that returns the chunk.
abbrev pub before : Codes → Codes → Shell → Shell
before buffer chunk s = record s { readbuf = buffer; incoming = chunk ∷ s.incoming }

-- A read that takes a whole buffer.
pub read_all :
    (buffer chunk : Codes) (s : Shell)
    → length (buffer ++ chunk) ≤ 1024
    → length buffer < 1024
    → read 1024 (before buffer chunk s) ≡ some (buffer ++ chunk, record s { readbuf = [] })
read_all buffer chunk s h room =
    let whole = take_whole 1024 (buffer ++ chunk) h in
    read_filled 1024 (before buffer chunk s) (record s { readbuf = buffer ++ chunk })
      (ground (arith, room)) refl
    ∙ ap (λ b. some (b, record s { readbuf = drop 1024 (buffer ++ chunk) })) whole.0
    ∙ ap (λ b. some (buffer ++ chunk, record s { readbuf = b })) whole.1

readline_all :
    (buffer chunk : Codes) (s : Shell)
    → length (buffer ++ chunk) ≤ 1024
    → length buffer < 1024
    → readline (before buffer chunk s)
      ≡ some (take_line (buffer ++ (buffer ++ chunk)) (record s { readbuf = [] }))
unfolding readline
readline_all buffer chunk s h room =
    ap (λ o. o >>? λ (got, s1). some (take_line (buffer ++ got) s1))
      (read_all buffer chunk s h room)

abbrev cut_of : Codes → Shell → Option (Codes × Codes) → Option Codes × Shell
cut_of buffer s none = (none, record s { readbuf = buffer })
cut_of buffer s (some (line, after)) = (some line, record s { readbuf = after })

take_line-cut :
    (buffer : Codes) (s : Shell) (o : Option (Codes × Codes))
    → cut_line buffer ≡ o
    → take_line buffer s ≡ cut_of buffer s o
take_line-cut buffer s o e = ap (cut_of buffer s) e

twice :
    (b c after : Codes)
    → IsUnbroken b
    → IsUnbroken c
    → cut_line (b ++ (b ++ (c ++ (10 ∷ after)))) ≡ some (b ++ (b ++ c), after)
twice b c after hb hc =
    let line = All-append _ b (b ++ c) hb (All-append _ b c hb hc) in
    ap cut_line (
      sym (append_assoc b (b ++ c) (10 ∷ after) ∙ ap (λ l. b ++ l) (append_assoc b c (10 ∷ after))))
    ∙ cut_line-append (b ++ (b ++ c)) after line

-- A line that comes in two parts, from an empty buffer and of at most 1024 characters with all that
-- comes with it: the first call of `readline` returns None, and the second returns the first part
-- twice and then the second. Only where the first part is empty that is the line.
pub readline_repeats :
    (b c after : Codes) (s : Shell)
    → IsUnbroken b
    → IsUnbroken c
    → length (b ++ (c ++ (10 ∷ after))) ≤ 1024
    → (readline (before [] b (record s { incoming = (c ++ (10 ∷ after)) ∷ s.incoming }))
        ≡ some (none, before b (c ++ (10 ∷ after)) s))
      × (readline (before b (c ++ (10 ∷ after)) s)
          ≡ some (some (b ++ (b ++ c)), record s { readbuf = after }))
readline_repeats b c after s hb hc small =
    let l1 = length-append b (c ++ (10 ∷ after)) in
    let l2 = length-append c (10 ∷ after) in
    (
      readline_all [] b (record s { incoming = (c ++ (10 ∷ after)) ∷ s.incoming })
            (omega (arith, l1, small)) (omega arith)
          ∙ ap some (
              take_line-cut b
                (record s { readbuf = []; incoming = (c ++ (10 ∷ after)) ∷ s.incoming }) none
                (cut_line-IsUnbroken b hb)),
      readline_all b (c ++ (10 ∷ after)) s small (omega (arith, l1, l2, small))
          ∙ ap some (
              take_line-cut (b ++ (b ++ (c ++ (10 ∷ after)))) (record s { readbuf = [] })
                (some (b ++ (b ++ c), after)) (twice b c after hb hc)),
    )
