-- ===== src/Helpers/Options.antt =====
-- `splitArgs` reads back the calls that are written for it.
use Prim.Native.Char.{code}
use Prim.Native.String.append
use faultynet.Shared.{
  ℕ, String, Bool, true, false, not, Bool-cases, inl, inr, append_nil, List, [], ◌∷◌, ◌++◌, All,
  map, Dict, insert, cat, ◌<>◌, ◌≡◌, refl, ap, ◌∙◌, ◌==◌, if◌then◌else◌,
}
use faultynet.Shared.Text.Split.{split_on, Without, split_on-append, split_on_whole}
use faultynet.Addresses.{join_with}
use faultynet.Values.{Floats, Value}
use faultynet.Helpers.{
  keep, has_char, split_once, keywords, make_numeric, call_of, split_args, Call,
}

split_on-join :
    (s : String) (parts : List String)
    → Without 44 s
    → All (Without 44) parts
    → split_on 44 (join_with "," (s ∷ parts)) ≡ s ∷ parts
unfolding join_with cat
split_on-join s [] w all = split_on_whole 44 s w
split_on-join s (t ∷ parts) w all =
    let rest = join_with "," (t ∷ parts) in
    ap (λ u. split_on 44 (s <> u))
      (append.cons "," "" rest ∙ ap (λ u. String.◌∷◌ "," u) (append.nil rest))
    ∙ split_on-append 44 s "," rest refl w
    ∙ ap (λ l. s ∷ l) (split_on-join t parts all.0 all.1)

has_char-Without : (c : ℕ) (s : String) → Without c s → has_char c s ≡ false
unfolding has_char
has_char-Without c String.[] w = refl
has_char-Without c (String.◌∷◌ x s) w = rw w.0 (has_char-Without c s w.1)

-- A keyword argument as it is written.
abbrev pub setting : String × String → String
setting (key, val) = key <> String.◌∷◌ "=" val

either_way : (b : Bool) {c : Bool} → c ≡ true → (if b then true else c) ≡ true
either_way true e = refl
either_way false e = e

has_char-setting : (key val : String) → has_char 61 (setting (key, val)) ≡ true
unfolding has_char
has_char-setting String.[] val = rw append.nil refl
has_char-setting (String.◌∷◌ x key) val =
    rw append.cons (either_way (code x == 61) (has_char-setting key val))

split_once-setting :
    (key val : String) → Without 61 key → split_once 61 (setting (key, val)) ≡ (key, val)
unfolding split_once
split_once-setting String.[] val w = rw append.nil refl
split_once-setting (String.◌∷◌ x key) val w =
    rw append.cons (rw (w.0, split_once-setting key val w.1) refl)

keep-All : {A : Type 0} (p : A → Bool) (xs : List A) → All (λ x. p x ≡ true) xs → keep p xs ≡ xs
unfolding keep
keep-All p [] all = refl
keep-All p (x ∷ xs) all = rw all.0 (ap (λ l. x ∷ l) (keep-All p xs all.1))

keep_nothing :
    {A : Type 0} (p : A → Bool) (xs : List A) → All (λ x. p x ≡ false) xs → keep p xs ≡ []
unfolding keep
keep_nothing p [] all = refl
keep_nothing p (x ∷ xs) all = rw all.0 (keep_nothing p xs all.1)

keep-append :
    {A : Type 0} (p : A → Bool) (xs ys : List A) → keep p (xs ++ ys) ≡ keep p xs ++ keep p ys
unfolding keep
keep-append p [] ys = refl
keep-append p (x ∷ xs) ys = elim (Bool-cases (p x)) [
  | inl e ↦ rw e (ap (λ l. x ∷ l) (keep-append p xs ys))
  | inr e ↦ rw e (keep-append p xs ys)
]

-- The keyword arguments, each under its key; where one is given twice, the last counts.
abbrev pub assigned : {F : Floats} → Dict (Value F) → List (String × String) → Dict (Value F)
assigned kwargs [] = kwargs
assigned kwargs ((key, val) ∷ settings) = assigned (insert key (make_numeric val) kwargs) settings

keywords-settings :
    {F : Floats} (kwargs : Dict (Value F)) (settings : List (String × String))
    → All (λ (key, val). Without 61 key) settings
    → keywords kwargs (map setting settings) ≡ assigned kwargs settings
unfolding keywords
keywords-settings kwargs [] all = refl
keywords-settings {F = F} kwargs ((key, val) ∷ settings) all =
    ap (λ r. keywords (insert r.0 (make_numeric r.1) kwargs) (map setting settings))
      (split_once-setting key val all.0)
    ∙ keywords-settings (insert key (make_numeric {F = F} val) kwargs) settings all.1

module _ (c : ℕ) where
  All-plain : (args : List String) → All (Without c) args → All (λ s. has_char c s ≡ false) args
  All-plain [] all = tt
  All-plain (s ∷ args) all = (has_char-Without c s all.0, All-plain args all.1)

All-named :
    (settings : List (String × String)) → All (λ s. has_char 61 s ≡ true) (map setting settings)
All-named [] = tt
All-named ((key, val) ∷ settings) = (has_char-setting key val, All-named settings)

not_each :
    {A : Type 0} (p : A → Bool) (b : Bool) (xs : List A)
    → All (λ x. p x ≡ b) xs
    → All (λ x. not (p x) ≡ not b) xs
not_each p b [] all = tt
not_each p b (x ∷ xs) all = (ap not all.0, not_each p b xs all.1)

-- Which of the parameters are positional, and which are keywords.
parameters :
    (args : List String) (settings : List (String × String))
    → All (Without 61) args
    → (keep (λ s. not (has_char 61 s)) (args ++ map setting settings) ≡ args)
      × (keep (has_char 61) (args ++ map setting settings) ≡ map setting settings)
parameters args settings all =
    let plain = All-plain 61 args all in
    let named = All-named settings in
    (
      keep-append _ args (map setting settings)
          ∙ ap (λ l. l ++ keep (λ s. not (has_char 61 s)) (map setting settings))
              (keep-All _ args (not_each _ false args plain))
          ∙ ap (λ l. args ++ l) (keep_nothing _ (map setting settings) (not_each _ true _ named))
          ∙ append_nil args,
      keep-append _ args (map setting settings)
          ∙ ap (λ l. l ++ keep (has_char 61) (map setting settings)) (keep_nothing _ args plain)
          ∙ keep-All _ (map setting settings) named,
    )

abbrev call_parts : {F : Floats} → String → List String → Dict (Value F) → Call F
call_parts fn args kwargs = record { fn = fn; args = map make_numeric args; kwargs = kwargs }

-- A function's name, arguments without a comma or an equals sign, and keyword arguments that are
-- joined by commas are read back: the arguments in their order, as numbers where they are some, and
-- each value under its key, where a key has no equals sign and no setting a comma.
split_args-join :
    {F : Floats} (fn : String) (args : List String) (settings : List (String × String))
    → Without 44 fn
    → All (Without 44) (args ++ map setting settings)
    → All (Without 61) args
    → All (λ (key, val). Without 61 key) settings
    → split_args {F = F} (join_with "," (fn ∷ args ++ map setting settings))
      ≡ record { fn = fn; args = map make_numeric args; kwargs = assigned [] settings }
unfolding split_args
split_args-join {F} fn args settings wf wc wa wk =
    let both = parameters args settings wa in
    ap call_of (split_on-join fn (args ++ map setting settings) wf wc)
    ∙ ap (λ l. call_parts fn l (keywords [] (keep (has_char 61) (args ++ map setting settings))))
        both.0
    ∙ ap (λ l. call_parts fn args (keywords [] l)) both.1
    ∙ ap (call_parts fn args) (keywords-settings [] settings wk)
