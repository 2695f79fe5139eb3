-- ===== src/Controllers/ConfigFile/Kinds.antt =====
-- Which text of a configuration is a fault of which kind.
use Prim.Native.Char.{Char, code}
use Prim.Native.String.append
use text.Mathlib.TextEquality.{Char-path}
use mathlib.Core.Option.{some-injective}
use faultynet.Shared.{
  String, ◌<>◌, ◌≡◌, ◌≢◌, refl, sym, ◌∙◌, Bool, true, false, Bool-cases, inl, inr, ◌==◌, Option,
  none, some, Option-cases, arith,
}
use faultynet.Shared.Text.Split.{AllChars}
use faultynet.Controllers.Patterns.{after_prefix, fault_of_kind}
use faultynet.Controllers.Patterns.Printing.{span_whole}
use faultynet.Controllers.ConfigFile.{Kind, link_fault, node_fault, multi_fault, kind_of}

-- The text begins with none of the words of the three kinds.
abbrev pub IsUnknown : String → Type 0
IsUnknown s =
    (w : String) → (s ≢ "link_fault:" <> w) × (s ≢ "node_fault:" <> w) × (s ≢ "multi_fault" <> w)

-- How a kind is written; a fault of no kind has no type, or an unknown one.
abbrev pub IsTyped : (Char → Bool) → Option Kind → Option String → Type 0
IsTyped is_word none none = Unit
IsTyped is_word none (some s) = IsUnknown s
IsTyped is_word (some k) none = ⊥
IsTyped is_word (some (link_fault w)) (some s) = (s ≡ "link_fault:" <> w) × AllChars is_word w
IsTyped is_word (some (node_fault w)) (some s) = (s ≡ "node_fault:" <> w) × AllChars is_word w
IsTyped is_word (some multi_fault) (some s) = s ≡ "multi_fault"

same_code : (c : Char) → (code c == code c) ≡ true
same_code c = ground arith

after_prefix-append : (p s : String) → after_prefix p (p <> s) ≡ some s
unfolding after_prefix
after_prefix-append String.[] s = rw append.nil refl
after_prefix-append (String.◌∷◌ c p) s = rw (append.cons, same_code c, after_prefix-append p s) refl

-- A text that begins with another letter.
after_prefix-other :
    (c d : Char) (p s : String)
    → (code c == code d) ≡ false
    → after_prefix (String.◌∷◌ c p) (String.◌∷◌ d s) ≡ none
unfolding after_prefix
after_prefix-other c d p s h = rw h refl

module _ (is_word : Char → Bool) where
  fault_of_kind-append :
      (p w : String) → AllChars is_word w → fault_of_kind is_word p (p <> w) ≡ some w
  unfolding fault_of_kind
  fault_of_kind-append p w h =
      rw (fault_of_kind, after_prefix-append p w, span_whole is_word w h) refl

  fault_of_kind-none : (p s : String) → after_prefix p s ≡ none → fault_of_kind is_word p s ≡ none
  unfolding fault_of_kind
  fault_of_kind-none p s h = rw (fault_of_kind, h) refl

  kind_of_link :
      (w : String) → AllChars is_word w → kind_of is_word ("link_fault:" <> w) ≡ some (link_fault w)
  unfolding kind_of
  kind_of_link w h = rw (fault_of_kind-append "link_fault:" w h) refl

  kind_of_multi : kind_of is_word "multi_fault" ≡ some multi_fault
  unfolding kind_of
  kind_of_multi = refl

  node_text : (w : String) → "node_fault:" <> w ≡ String.◌∷◌ "n" ("ode_fault:" <> w)
  node_text w = append.cons "n" "ode_fault:" w

  not_link : (w : String) → after_prefix "link_fault:" ("node_fault:" <> w) ≡ none
  not_link w = rw (node_text w) (after_prefix-other "l" "n" "ink_fault:" ("ode_fault:" <> w) refl)

  not_multi : (w : String) → after_prefix "multi_fault" ("node_fault:" <> w) ≡ none
  not_multi w = rw (node_text w) (after_prefix-other "m" "n" "ulti_fault" ("ode_fault:" <> w) refl)

  kind_of_node :
      (w : String) → AllChars is_word w → kind_of is_word ("node_fault:" <> w) ≡ some (node_fault w)
  unfolding kind_of
  kind_of_node w h =
      rw
        (
          fault_of_kind-none "link_fault:" ("node_fault:" <> w) (not_link w),
          not_multi w,
          fault_of_kind-append "node_fault:" w h,
        )
        refl

after_prefix-some : (p s r : String) → after_prefix p s ≡ some r → s ≡ p <> r
unfolding after_prefix
after_prefix-some String.[] s r h = some-injective s r h ∙ sym (append.nil r)
after_prefix-some (String.◌∷◌ c p) String.[] r h = absurd cc
after_prefix-some (String.◌∷◌ c p) (String.◌∷◌ d s) r h = elim (Bool-cases (code c == code d)) [
  | inr other ↦ let clash : none ≡ some r = rw other at h in absurd cc
  | inl same ↦
      let letter : c ≡ d = Char-path c d (ground arith) in
      let rest = after_prefix-some p s r (rw same at h) in rw (append.cons, letter, rest) refl
]

module _ (is_word : Char → Bool) where
  no_prefix : (p s : String) → ((w : String) → s ≢ p <> w) → after_prefix p s ≡ none
  no_prefix p s h = elim (Option-cases (after_prefix p s)) [
    | inl missing ↦ missing
    | inr (r, e) ↦ absurd (h r (after_prefix-some p s r e))
  ]

  kind_of_unknown : (s : String) → IsUnknown s → kind_of is_word s ≡ none
  unfolding kind_of
  kind_of_unknown s h =
      rw
        (
          fault_of_kind-none is_word "link_fault:" s (no_prefix "link_fault:" s (λ w. (h w).0)),
          no_prefix "multi_fault" s (λ w. (h w).2),
          fault_of_kind-none is_word "node_fault:" s (no_prefix "node_fault:" s (λ w. (h w).1)),
        )
        refl

  -- A kind is read as it is written.
  pub kind_of-typed :
      (k : Option Kind) (s : String) → IsTyped is_word k (some s) → kind_of is_word s ≡ k
  kind_of-typed none s h = kind_of_unknown s h
  kind_of-typed (some (link_fault w)) s h = rw h.0 (kind_of_link is_word w h.1)
  kind_of-typed (some (node_fault w)) s h = rw h.0 (kind_of_node is_word w h.1)
  kind_of-typed (some multi_fault) s h = rw h (kind_of_multi is_word)
