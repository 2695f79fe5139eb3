-- ===== src/Addresses/Subnets.antt =====
-- The addresses that `ipAdd` gives out lie in their subnet, each of them once.
use faultynet.Shared.{
  ℕ, ◌+◌, ◌^◌, ◌≤◌, ◌<◌, ◌≡◌, refl, sym, ◌∙◌, ap, String, ok, err, ok-injective, err-ne-ok,
  assertion_error, ltb, pos, pos_part, arith, false, inl, inr, Bool-cases,
}
use faultynet.Shared.Bits.{bit_and-le, bit_xor-ones}
use native.Mathlib.Nat.{div-le_self}
use faultynet.Addresses.{ip_str, ip_parse, ip_add, last_in_subnet, network_of}
use faultynet.Addresses.Parsing.{ip_parse-ip_str}

-- Network and host part together stay within 32 bits.
pub network-lt :
    (i prefix_len base : ℕ)
    → i ≤ last_in_subnet prefix_len
    → network_of prefix_len base + i < 2 ^ 32
network-lt i prefix_len base h =
    let small : last_in_subnet prefix_len < 2 ^ 32 =
      omega (arith, div-le_self 0xffffffff (2 ^ prefix_len)) in
    omega (arith, bit_xor-ones 32 (last_in_subnet prefix_len) small, bit_and-le base _, h)

pub ip_add_fits :
    (i prefix_len base : ℕ)
    → i ≤ last_in_subnet prefix_len
    → ip_add i prefix_len base ≡ ok (ip_str (network_of prefix_len base + i))
unfolding ip_add
ip_add_fits i prefix_len base h =
    let fits : ltb (last_in_subnet prefix_len) i ≡ false = ground (arith, h) in rw fits refl

-- An address that `ipAdd` is asked for within the subnet is given out, and read back it is the
-- network's part of the base plus the number of the host, below 2 ^ 32. A number that does not fit
-- the subnet is refused.
ip_add_reads :
    (i prefix_len base : ℕ)
    → i ≤ last_in_subnet prefix_len
    → (address : String) × (ip_add i prefix_len base ≡ ok address)
      × (ip_parse address ≡ ok (pos (network_of prefix_len base + i)))
      × (network_of prefix_len base + i < 2 ^ 32)
ip_add_reads i prefix_len base h =
    let small = network-lt i prefix_len base h in
    (
      ip_str (network_of prefix_len base + i),
      ip_add_fits i prefix_len base h,
      ip_parse-ip_str _ small,
      small,
    )

within :
    (i prefix_len base : ℕ) (address : String)
    → ip_add i prefix_len base ≡ ok address
    → i ≤ last_in_subnet prefix_len
unfolding ip_add
within i prefix_len base address h = elim (Bool-cases (ltb (last_in_subnet prefix_len) i)) [
  | inl over ↦
      let wrong : err assertion_error ≡ ok address = sym (rw over refl) ∙ h in
      absurd (err-ne-ok wrong)
  | inr fits ↦ ground (arith, fits)
]

reads_as :
    (i prefix_len base : ℕ) (address : String)
    → ip_add i prefix_len base ≡ ok address
    → ip_parse address ≡ ok (pos (network_of prefix_len base + i))
reads_as i prefix_len base address h =
    let fits = within i prefix_len base address h in
    let same = ok-injective (sym (ip_add_fits i prefix_len base fits) ∙ h) in
    ap ip_parse (sym same) ∙ ip_parse-ip_str _ (network-lt i prefix_len base fits)

-- Two numbers of one subnet that are given the same address are the same.
ip_add-injective :
    (i j prefix_len base : ℕ) (address : String)
    → ip_add i prefix_len base ≡ ok address
    → ip_add j prefix_len base ≡ ok address
    → i ≡ j
ip_add-injective i j prefix_len base address hi hj =
    let same =
      ok-injective
        (sym (reads_as i prefix_len base address hi) ∙ reads_as j prefix_len base address hj) in
    omega (arith, ap pos_part same)
