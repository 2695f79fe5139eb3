-- ===== src/Addresses/Octets.antt =====
-- The bytes that are cut out of a number.
use Prim.Native.Nat.{bit_and}
use faultynet.Shared.{ℕ, ◌*◌, ◌/◌, ◌%◌, ◌^◌, ◌≡◌, ◌∙◌, ap}
use faultynet.Shared.Bits.{bit_and-byte, byte-bit_and, pow_pos, div-bit_and}
use native.Mathlib.Nat.{mul-div_cancel}
use faultynet.Addresses.{octet, piece_of}

pub octet-mod : (ip k : ℕ) → octet ip k ≡ ip / 2 ^ k % 256
unfolding octet
octet-mod ip k = bit_and-byte (ip / 2 ^ k)

pub piece_of-mod : (val i : ℕ) → piece_of val i ≡ val / 2 ^ (i * 8) % 256
unfolding piece_of
piece_of-mod val i =
    div-bit_and (i * 8) (255 * 2 ^ (i * 8)) val
    ∙ ap (λ x. bit_and x (val / 2 ^ (i * 8))) (mul-div_cancel 255 (pow_pos (i * 8)))
    ∙ byte-bit_and (val / 2 ^ (i * 8))
