-- ===== src/Socket/Checksum/Total.antt =====
-- internal/socket/multicast.go: udpChecksum returns, whatever the bytes.
use netns_mcast_relay.Base.{ℕ, ◌+◌, ◌*◌, ◌^◌, ◌<◌, ◌≡◌, refl, some, [], ◌∷◌, Bytes, length, arith}
use netns_mcast_relay.Net.{to4}
use netns_mcast_relay.Socket.Checksum.{
  u32, sum_words, sum_tail, complement, sum_addresses, udp_checksum,
}
use netns_mcast_relay.Socket.Checksum.Sums.{Folds-carry_fuel}

sum_words-lt : (sum : ℕ) (b : Bytes) → sum < 2 ^ 32 → sum_words sum b < 2 ^ 32
unfolding sum_words
sum_words-lt sum [] h = h
sum_words-lt sum (b ∷ []) h = h
sum_words-lt sum (hi ∷ lo ∷ rest) h = sum_words-lt (u32 (sum + (hi * 256 + lo))) rest (omega arith)

sum_tail-lt : (sum : ℕ) (b : Bytes) → sum < 2 ^ 32 → sum_tail sum b < 2 ^ 32
unfolding sum_tail
sum_tail-lt sum b h = ground arith

-- Between two IPv4 addresses udpChecksum returns a checksum, whatever the payload.
pub udp_checksum-some :
    (source destination s t payload : Bytes)
    → to4 source ≡ some s
    → to4 destination ≡ some t
    → (k : ℕ) × (udp_checksum source destination payload ≡ some k)
unfolding udp_checksum
udp_checksum-some source destination s t payload es et =
    let start = u32 (u32 (sum_addresses s t + 17) + u32 (length payload)) in
    let (r, e, _, _, _) =
      Folds-carry_fuel (sum_tail (sum_words start payload) payload) (
        sum_tail-lt (sum_words start payload) payload (sum_words-lt start payload (omega arith))) in
    (complement r, rw (es, et, e) refl)
