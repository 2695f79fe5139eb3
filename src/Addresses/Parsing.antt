-- ===== src/Addresses/Parsing.antt =====
-- What `ipStr` prints is read back by `ipParse`.
use Prim.Native.String.append
use Prim.Native.Nat.{bit_or}
use faultynet.Shared.{
  ℕ, ◌+◌, ◌-◌, ◌*◌, ◌^◌, ◌<◌, ◌≡◌, refl, ◌∙◌, ap, String, ◌<>◌, [], ◌∷◌, length, pos, ok, traverse,
  cat, show_ℕ, arith, ◌>>=◌, show_ℤ, err, value_error,
}
use faultynet.Shared.Bits.{bit_or-shift}
use faultynet.Shared.Text.Decimal.{int-show_ℤ, show_ℕ-Without}
use faultynet.Shared.Text.Split.{split_on, split_on-append, split_on_whole}
use faultynet.Values.{or_raise}
use faultynet.Addresses.{octet, ip_str, ip_num, or_ℤ, int_arg, fill, ip_parse, four_args}
use faultynet.Addresses.Octets.{octet-mod}

int-show : (n : ℕ) → int_arg (show_ℕ n) ≡ ok (pos n)
unfolding show_ℤ
int-show n = ap (λ o. or_raise o (err value_error)) (int-show_ℤ (pos n))

-- Four numerals with dots between them.
abbrev pub dotted : ℕ → ℕ → ℕ → ℕ → String
dotted w x y z = cat (show_ℕ w ∷ "." ∷ show_ℕ x ∷ "." ∷ show_ℕ y ∷ "." ∷ show_ℕ z ∷ [])

dot_first : (s : String) → "." <> s ≡ String.◌∷◌ "." s
dot_first s = append.cons "." "" s ∙ ap (λ t. String.◌∷◌ "." t) (append.nil s)

-- The first of the parts.
part :
    (n : ℕ) (rest : String) → split_on 46 (show_ℕ n <> ("." <> rest)) ≡ show_ℕ n ∷ split_on 46 rest
part n rest =
    ap (λ s. split_on 46 (show_ℕ n <> s)) (dot_first rest)
    ∙ split_on-append 46 (show_ℕ n) "." rest refl (show_ℕ-Without 46 n (omega arith))

split-dotted :
    (w x y z : ℕ) → split_on 46 (dotted w x y z) ≡ show_ℕ w ∷ show_ℕ x ∷ show_ℕ y ∷ show_ℕ z ∷ []
unfolding cat
split-dotted w x y z =
    part w _
    ∙ ap (λ l. show_ℕ w ∷ l)
        (part x _
          ∙ ap (λ l. show_ℕ x ∷ l)
              (part y _
                ∙ ap (λ l. show_ℕ y ∷ l)
                    (split_on_whole 46 (show_ℕ z) (show_ℕ-Without 46 z (omega arith)))))

ip_num-sum :
    (w x y z : ℕ)
    → w < 256
    → x < 256
    → y < 256
    → z < 256
    → ip_num (pos w) (pos x) (pos y) (pos z) ≡ pos (w * 2 ^ 24 + x * 2 ^ 16 + y * 2 ^ 8 + z)
unfolding ip_num or_ℤ
ip_num-sum w x y z hw hx hy hz =
    let one : bit_or (w * 2 ^ 24) (x * 2 ^ 16) ≡ (w * 256 + x) * 2 ^ 16 =
      bit_or-shift 24 w (x * 2 ^ 16) (omega arith) ∙ omega arith in
    let two : bit_or ((w * 256 + x) * 2 ^ 16) (y * 2 ^ 8) ≡ (w * 65536 + x * 256 + y) * 2 ^ 8 =
      bit_or-shift 16 (w * 256 + x) (y * 2 ^ 8) (omega arith) ∙ omega arith in
    let three = bit_or-shift 8 (w * 65536 + x * 256 + y) z (omega arith) in
    ap pos (
      ap (λ a. bit_or (bit_or a (y * 2 ^ 8)) z) one
      ∙ ap (λ a. bit_or a z) two
      ∙ three
      ∙ omega arith)

ip_parse-dotted :
    (w x y z : ℕ)
    → w < 256
    → x < 256
    → y < 256
    → z < 256
    → ip_parse (dotted w x y z) ≡ ok (pos (w * 2 ^ 24 + x * 2 ^ 16 + y * 2 ^ 8 + z))
unfolding ip_parse fill
ip_parse-dotted w x y z hw hx hy hz =
    ap (λ l. traverse int_arg l >>= λ args. four_args (fill (4 - length args) args))
      (split-dotted w x y z)
    ∙ rw (int-show w, int-show x, int-show y, int-show z) (ap ok (ip_num-sum w x y z hw hx hy hz))

-- Every address of 32 bits that is printed is read back as the same number.
pub ip_parse-ip_str : (ip : ℕ) → ip < 2 ^ 32 → ip_parse (ip_str ip) ≡ ok (pos ip)
unfolding ip_str
ip_parse-ip_str ip h =
    ip_parse-dotted (octet ip 24) (octet ip 16) (octet ip 8) (octet ip 0)
      (omega (arith, octet-mod ip 24)) (omega (arith, octet-mod ip 16))
      (omega (arith, octet-mod ip 8)) (omega (arith, octet-mod ip 0))
    ∙ ap (λ n. ok (pos n))
        (omega (arith, octet-mod ip 24, octet-mod ip 16, octet-mod ip 8, octet-mod ip 0))
