-- ===== src/Addresses/Macs.antt =====
-- net.py: `randMac`.
use Prim.Native.Nat.{bit_and, bit_or}
use faultynet.Shared.{ℕ, ◌/◌, ◌%◌, ◌^◌, ◌<◌, ◌≡◌, String, ap, ◌∙◌, arith}
use faultynet.Shared.Bits.{bit_and-parity, bit_or-parity, div-bit_and, div-bit_or, bit_and-zero}
use faultynet.Addresses.{mac_colon_hex}

-- `randint & 0xfeffffffffff | 0x020000000000`
abbrev pub mac_number : ℕ → ℕ
mac_number random = bit_or (bit_and random 0xfeffffffffff) 0x020000000000

unfoldable pub rand_mac : ℕ → String
unfolding mac_colon_hex
rand_mac random = mac_colon_hex (mac_number random)

above :
    (k random : ℕ)
    → mac_number random / 2 ^ k
      ≡ bit_or (bit_and (random / 2 ^ k) (0xfeffffffffff / 2 ^ k)) (0x020000000000 / 2 ^ k)
above k random =
    div-bit_or k (bit_and random 0xfeffffffffff) 0x020000000000
    ∙ ap (λ x. bit_or x (0x020000000000 / 2 ^ k)) (div-bit_and k random 0xfeffffffffff)

-- Whatever the random number, the address has 48 bits, is no multicast address and is marked as one
-- that is administered locally.
mac_number_local :
    (random : ℕ)
    → (mac_number random < 2 ^ 48)
      × (mac_number random / 2 ^ 40 % 2 ≡ 0)
      × (mac_number random / 2 ^ 41 % 2 ≡ 1)
mac_number_local random = (
  omega (arith, above 48 random, ap (λ x. bit_or x 0) (bit_and-zero (random / 2 ^ 48))),
  ap (λ x. x % 2) (above 40 random)
      ∙ omega (
        arith,
        bit_or-parity (bit_and (random / 2 ^ 40) 0xfe) 2,
        bit_and-parity (random / 2 ^ 40) 0xfe,
      ),
  ap (λ x. x % 2) (above 41 random)
      ∙ omega (arith, bit_or-parity (bit_and (random / 2 ^ 41) 0x7f) 1),
)
