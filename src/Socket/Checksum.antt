-- ===== src/Socket/Checksum.antt =====
-- internal/socket/multicast.go: udpChecksum, and the segment that writeRawUDP builds. A byte is a
-- number below 256, and uint16 and uint32 wrap.
pub mod Sums
pub mod Valid
pub mod Total
mod Tests
use netns_mcast_relay.Base.{
  ℕ, zero, suc, ◌+◌, ◌-◌, ◌*◌, ◌/◌, ◌%◌, ◌^◌, Bool, true, false, Option, none, some, List, [], ◌∷◌,
  ◌++◌, Bytes, ◌==◌, nat_eq, leb, ltb, if◌then◌else◌, length, get_or, ℤ, pos, negsuc,
}
use netns_mcast_relay.Net.{UdpAddr, to4}

abbrev pub u32 : ℕ → ℕ
u32 n = n % 2 ^ 32

-- `for i := 0; i+1 < len(b); i += 2 { sum += uint32(binary.BigEndian.Uint16(b[i : i+2])) }`
unfoldable pub sum_words : ℕ → Bytes → ℕ
sum_words sum [] = sum
sum_words sum (b ∷ []) = sum
sum_words sum (hi ∷ lo ∷ rest) = sum_words (u32 (sum + (hi * 256 + lo))) rest

-- `if len(b)%2 != 0 { sum += uint32(b[len(b)-1]) << 8 }`
unfoldable pub sum_tail : ℕ → Bytes → ℕ
sum_tail sum b =
    if length b % 2 == 0 then sum else u32 (sum + u32 (get_or b (length b - 1) 0 * 256))

-- `for sum > 0xffff { sum = (sum & 0xffff) + (sum >> 16) }`; `none` means that the fuel ran out.
unfoldable pub fold_carries : ℕ → ℕ → Option ℕ
fold_carries zero sum = none
fold_carries (suc fuel) sum =
    let rest = fold_carries fuel (u32 (sum % 2 ^ 16 + sum / 2 ^ 16)) in
    if leb sum 0xffff then some sum else rest

-- `checksum := ^uint16(sum)`, and 0 is sent as 0xffff.
abbrev pub complement : ℕ → ℕ
complement sum = let checksum = 0xffff - sum % 2 ^ 16 in if checksum == 0 then 0xffff else checksum

abbrev pub add_word : ℕ → Bytes → ℕ → ℕ
add_word sum b i = u32 (sum + (get_or b i 0 * 256 + get_or b (i + 1) 0))

-- The loop over the two addresses adds a word of each in turn.
abbrev pub sum_addresses : Bytes → Bytes → ℕ
sum_addresses source destination =
    add_word (add_word (add_word (add_word 0 source 0) destination 0) source 2) destination 2

abbrev pub carry_fuel : ℕ
carry_fuel = 3

abbrev pub checksum_of : Option ℕ → Option ℕ
checksum_of none = none
checksum_of (some sum) = some (complement sum)

-- udpChecksum, on the addresses that To4 gives; `none` is the panic on an address that is no IPv4
-- address.
abbrev pub checksum_between : Option Bytes → Option Bytes → Bytes → Option ℕ
checksum_between (some s) (some d) payload = checksum_of (
    fold_carries carry_fuel (
      sum_tail (sum_words (u32 (u32 (sum_addresses s d + 17) + u32 (length payload))) payload)
        payload))
checksum_between _ _ payload = none

unfoldable pub udp_checksum : Bytes → Bytes → Bytes → Option ℕ
udp_checksum source destination payload = checksum_between (to4 source) (to4 destination) payload

-- `uint16(n)` in big-endian order
abbrev pub put_uint16 : ℕ → Bytes
put_uint16 n = n % 2 ^ 16 / 256 ∷ n % 2 ^ 16 % 256 ∷ []

-- The segment: source port, destination port, length, checksum, data.
abbrev pub segment : ℕ → ℕ → ℕ → Bytes → Bytes
segment source_port group_port checksum bytes =
    put_uint16 source_port
    ++ put_uint16 group_port
    ++ put_uint16 (8 + length bytes)
    ++ put_uint16 checksum
    ++ bytes
