-- ===== src/Tests/Addresses.antt =====
-- Addresses, attempts and options at concrete inputs.
use faultynet.Shared.{
  ℕ, ◌≡◌, refl, Bool, true, ok, err, value_error, type_error, assertion_error, pos, arith, ◌==◌,
}
use faultynet.Addresses.{ip_parse, ip_str, ip_add, net_parse, mac_colon_hex}
use faultynet.Addresses.Parsing.{ip_parse-ip_str}
use faultynet.Helpers.{retry}

ip_parse-ip_str_example : ip_parse (ip_str 0x0a0000ff) ≡ ok (pos 0x0a0000ff)
ip_parse-ip_str_example = ip_parse-ip_str 0x0a0000ff (omega arith)

-- Fewer parts are filled with zeros in front of the last.
short_address : ip_parse "10.1" ≡ ok (pos 0x0a000001)
unfolding ip_parse
short_address = refl

long_address : ip_parse "10.0.0.0.1" ≡ err type_error
unfolding ip_parse
long_address = refl

no_address : ip_parse "10.x" ≡ err value_error
unfolding ip_parse
no_address = refl

slash_prefix_read : net_parse "10.0.0.0/8" ≡ ok (pos 0x0a000000, pos 8)
unfolding net_parse
slash_prefix_read = refl

mac_of_one : mac_colon_hex 1 ≡ "00:00:00:00:00:01"
unfolding mac_colon_hex
mac_of_one = refl

-- The last number of a subnet is its broadcast address.
broadcast_given : ip_add 255 24 0x0a000000 ≡ ok "10.0.0.255"
unfolding ip_add
broadcast_given = refl

subnet_full : ip_add 256 24 0x0a000000 ≡ err assertion_error
unfolding ip_add
subnet_full = refl

-- Only the third call succeeds.
abbrev third : ℕ → Bool
third n = n == 2

-- The third call is made and succeeds, and the program exits all the same.
gives_up_on_success : (retry 2 third).gave_up ≡ true
unfolding retry
gives_up_on_success = refl
