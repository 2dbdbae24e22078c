-- ===== src/Net.antt =====
-- What the program uses of Go's package net: addresses (net.IP, net.UDPAddr) and their tests.
use netns_mcast_relay.Base.{
  Bool, false, ◌&&◌, ◌||◌, Option, none, some, [], ◌∷◌, ◌++◌, Bytes, Text, ◌==◌, nat_eq, text_eq,
  if◌then◌else◌, length, take, drop, replicate, get_or, ℤ, leb,
}

-- net.UDPAddr; `ip` is a byte slice of any length, nil is [].
pub record UdpAddr : Type 0 where
  pub ip : Bytes
  pub port : ℤ
  pub zone : Text

abbrev v4_in_v6_prefix : Bytes
v4_in_v6_prefix = replicate 10 0 ++ 0xff ∷ 0xff ∷ []

-- IP.To4 and IP.To16; nil is `none`.
unfoldable pub to4 : Bytes → Option Bytes
to4 ip =
    if length ip == 4
    then some ip
    else if length ip == 16 && take 12 ip == v4_in_v6_prefix
    then some (drop 12 ip)
    else none

unfoldable pub to16 : Bytes → Option Bytes
to16 ip =
    if length ip == 4
    then some (v4_in_v6_prefix ++ ip)
    else if length ip == 16
    then some ip
    else none

-- IP.IsMulticast: 224.0.0.0/4, or ff00::/8.
unfoldable pub is_multicast : Bytes → Bool
unfolding to4
is_multicast ip = elim (to4 ip) [
  | some ip4 ↦ leb 224 (get_or ip4 0 0) && leb (get_or ip4 0 0) 239
  | none ↦ length ip == 16 && get_or ip 0 0 == 0xff
]

-- IP.Equal: an IPv4 address equals itself in IPv6 form.
unfoldable pub ip_equal : Bytes → Bytes → Bool
ip_equal ip x =
    if length ip == length x
    then ip == x
    else if length ip == 4 && length x == 16
    then take 12 x == v4_in_v6_prefix && ip == drop 12 x
    else if length ip == 16 && length x == 4
    then take 12 ip == v4_in_v6_prefix && drop 12 ip == x
    else false

-- IP.IsUnspecified: 0.0.0.0 (in its 16-byte form, as net.IPv4zero is) or ::.
unfoldable pub is_unspecified : Bytes → Bool
unfolding ip_equal
is_unspecified ip = ip_equal ip (v4_in_v6_prefix ++ replicate 4 0) || ip_equal ip (replicate 16 0)

-- `var a [16]byte; if ip := addr.IP.To16(); ip != nil { copy(a[:], ip) }`
unfoldable pub ip_array : Bytes → Bytes
unfolding to16
ip_array ip = elim (to16 ip) [ some b ↦ b | none ↦ replicate 16 0 ]
