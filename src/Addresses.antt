-- ===== src/Addresses.antt =====
-- mininet/util.py: IP and MAC addresses as numbers and as texts.
pub mod Octets
pub mod Parsing
pub mod Subnets
pub mod Macs
use Prim.Native.Nat.{bit_and, bit_or, bit_xor}
use Prim.Native.Char.{Char}
use faultynet.Shared.{
  ℕ, zero, suc, ◌+◌, ◌-◌, ◌*◌, ◌/◌, ◌%◌, ◌^◌, String, List, [], ◌∷◌, length, ℤ, pos, negsuc, Result,
  ok, err, type_error, value_error, assertion_error, ◌>>=◌, traverse, cat, is_in, show_ℕ,
  int_of_text, ltb, if◌then◌else◌,
}
use faultynet.Shared.Text.Split.{split_on}
use faultynet.Values.{or_raise}

-- One hexadecimal digit.
abbrev pub hex_digit : ℕ → Char
hex_digit zero = "0"
hex_digit (suc zero) = "1"
hex_digit (suc (suc zero)) = "2"
hex_digit (suc (suc (suc zero))) = "3"
hex_digit (suc (suc (suc (suc zero)))) = "4"
hex_digit (suc (suc (suc (suc (suc zero))))) = "5"
hex_digit (suc (suc (suc (suc (suc (suc zero)))))) = "6"
hex_digit (suc (suc (suc (suc (suc (suc (suc zero))))))) = "7"
hex_digit (suc (suc (suc (suc (suc (suc (suc (suc zero)))))))) = "8"
hex_digit (suc (suc (suc (suc (suc (suc (suc (suc (suc zero))))))))) = "9"
hex_digit (suc (suc (suc (suc (suc (suc (suc (suc (suc (suc zero)))))))))) = "a"
hex_digit (suc (suc (suc (suc (suc (suc (suc (suc (suc (suc (suc zero))))))))))) = "b"
hex_digit (suc (suc (suc (suc (suc (suc (suc (suc (suc (suc (suc (suc zero)))))))))))) = "c"
hex_digit (suc (suc (suc (suc (suc (suc (suc (suc (suc (suc (suc (suc (suc zero))))))))))))) = "d"
hex_digit (suc (suc (suc (suc (suc (suc (suc (suc (suc (suc (suc (suc (suc (suc zero)))))))))))))) =
    "e"
hex_digit _ = "f"

-- `'%02x' % piece`, for a byte
abbrev pub hex_byte : ℕ → String
hex_byte piece = String.◌∷◌ (hex_digit (piece / 16)) (String.◌∷◌ (hex_digit (piece % 16)) "")

-- `( ( 0xff << ( i * 8 ) ) & val ) >> ( i * 8 )`
unfoldable pub piece_of : ℕ → ℕ → ℕ
piece_of val i = bit_and (255 * 2 ^ (i * 8)) val / 2 ^ (i * 8)

-- The pieces from the highest byte to the lowest, for a number of bytes.
unfoldable pub pieces : ℕ → ℕ → List String
unfolding piece_of
pieces val zero = []
pieces val (suc i) = hex_byte (piece_of val i) ∷ pieces val i

-- `sep.join(parts)`
unfoldable pub join_with : String → List String → String
unfolding cat
join_with sep [] = ""
join_with sep (s ∷ []) = s
join_with sep (s ∷ t ∷ rest) = cat (s ∷ sep ∷ join_with sep (t ∷ rest) ∷ [])

unfoldable pub colon_hex : ℕ → ℕ → String
unfolding pieces join_with
colon_hex val bytecount = join_with ":" (pieces val bytecount)

unfoldable pub mac_colon_hex : ℕ → String
unfolding colon_hex
mac_colon_hex mac = colon_hex mac 6

-- `( ip >> k ) & 0xff`
unfoldable pub octet : ℕ → ℕ → ℕ
octet ip k = bit_and (ip / 2 ^ k) 255

-- `ipStr` of a number that is not negative.
unfoldable pub ip_str : ℕ → String
unfolding octet cat show_ℕ
ip_str ip = cat (
    show_ℕ (octet ip 24)
    ∷ "."
    ∷ show_ℕ (octet ip 16)
    ∷ "."
    ∷ show_ℕ (octet ip 8)
    ∷ "."
    ∷ show_ℕ (octet ip 0)
    ∷ [])

-- `a | b` of two's complement numbers without end; `negsuc n` is the complement of `n`.
unfoldable pub or_ℤ : ℤ → ℤ → ℤ
or_ℤ (pos a) (pos b) = pos (bit_or a b)
or_ℤ (pos a) (negsuc n) = negsuc (n - bit_and n a)
or_ℤ (negsuc n) (pos b) = negsuc (n - bit_and n b)
or_ℤ (negsuc m) (negsuc n) = negsuc (bit_and m n)

-- `a << k`
abbrev pub shift_left : ℤ → ℕ → ℤ
shift_left (pos a) k = pos (a * 2 ^ k)
shift_left (negsuc n) k = negsuc (suc n * 2 ^ k - 1)

unfoldable pub ip_num : ℤ → ℤ → ℤ → ℤ → ℤ
unfolding or_ℤ
ip_num w x y z = or_ℤ (or_ℤ (or_ℤ (shift_left w 24) (shift_left x 16)) (shift_left y 8)) z

-- `int(arg)`
abbrev pub int_arg : String → Result ℤ
int_arg s = or_raise (int_of_text s) (err value_error)

-- `args.insert(len(args) - 1, 0)`
unfoldable pub insert_zero : List ℤ → List ℤ
insert_zero [] = pos 0 ∷ []
insert_zero (a ∷ []) = pos 0 ∷ a ∷ []
insert_zero (a ∷ b ∷ args) = a ∷ insert_zero (b ∷ args)

-- `while len(args) < 4`
unfoldable pub fill : ℕ → List ℤ → List ℤ
unfolding insert_zero
fill zero args = args
fill (suc n) args = fill n (insert_zero args)

-- `ipNum( *args )`
abbrev pub four_args : List ℤ → Result ℤ
four_args (w ∷ x ∷ y ∷ z ∷ []) = ok (ip_num w x y z)
four_args _ = err type_error

unfoldable pub ip_parse : String → Result ℤ
unfolding split_on int_of_text fill ip_num
ip_parse ip = traverse int_arg (split_on 46 ip) >>= λ args. four_args (fill (4 - length args) args)

-- `ip, pf = ipstr.split( '/' )`, then `int( pf )`, then `ipParse( ip )`
abbrev net_parts : List String → Result (ℤ × ℤ)
net_parts (ip ∷ pf ∷ []) = int_arg pf >>= λ prefix_len. ip_parse ip >>= λ num. ok (num, prefix_len)
net_parts _ = err value_error

-- `netParse`: without a prefix it is 24.
unfoldable pub net_parse : String → Result (ℤ × ℤ)
unfolding ip_parse is_in
net_parse ipstr =
    let alone = ip_parse ipstr >>= λ num. ok (num, pos 24) in
    if is_in "/" ipstr then net_parts (split_on 47 ipstr) else alone

-- `imax` and `mask` of `ipAdd`
abbrev pub last_in_subnet : ℕ → ℕ
last_in_subnet prefix_len = 0xffffffff / 2 ^ prefix_len

abbrev pub network_of : ℕ → ℕ → ℕ
network_of prefix_len base = bit_and base (bit_xor 0xffffffff (last_in_subnet prefix_len))

-- `ipAdd`, for numbers that are not negative
unfoldable pub ip_add : ℕ → ℕ → ℕ → Result String
unfolding ip_str
ip_add i prefix_len ip_base_num =
    let address = ip_str (network_of prefix_len ip_base_num + i) in
    if ltb (last_in_subnet prefix_len) i then err assertion_error else ok address
