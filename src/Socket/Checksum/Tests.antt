-- ===== src/Socket/Checksum/Tests.antt =====
-- The checksum at concrete inputs.
use netns_mcast_relay.Base.{
  ℕ, ◌+◌, ◌%◌, ◌≤◌, ◌<◌, ◌≡◌, refl, some, [], ◌∷◌, ◌++◌, Bytes, length, arith,
}
use netns_mcast_relay.Net.{to4}
use netns_mcast_relay.Socket.Checksum.{udp_checksum, segment, sum_words, sum_tail, fold_carries}
use netns_mcast_relay.Socket.Checksum.Sums.{internet_sum}
use netns_mcast_relay.Socket.Checksum.Total.{udp_checksum-some}
use netns_mcast_relay.Socket.Checksum.Valid.{pseudo_header, udp_checksum-segment}

abbrev sender : Bytes
sender = 192 ∷ 168 ∷ 1 ∷ 7 ∷ []

abbrev group : Bytes
group = 224 ∷ 0 ∷ 0 ∷ 251 ∷ []

abbrev query : Bytes
query = 1 ∷ 2 ∷ 0xff ∷ []

checksum_runs : udp_checksum sender group (segment 5353 5353 0 query) ≡ some 0x3358
unfolding udp_checksum to4 sum_words sum_tail fold_carries
checksum_runs = refl

udp_checksum-segment_example :
    (k : ℕ) × (udp_checksum sender group (segment 5353 5353 0 query) ≡ some k)
    × (0 < k)
    × (k ≤ 0xffff)
    × (internet_sum (pseudo_header sender group (8 + length query) ++ segment 5353 5353 k query)
          % 65535
        ≡ 0)
unfolding to4
udp_checksum-segment_example =
    udp_checksum-segment sender group sender group 5353 5353 query refl refl (omega arith)
      (omega arith) (omega arith) (omega arith)

udp_checksum-some_example : (k : ℕ) × (udp_checksum sender group query ≡ some k)
unfolding to4
udp_checksum-some_example = udp_checksum-some sender group sender group query refl refl
