-- ===== src/Relay/Wiring/Live.antt =====
-- internal/relay/relay.go on internal/socket/multicast.go: the reads and writes of the relay are
-- ReadFrom and WriteToGroup.
use netns_mcast_relay.Base.{ℕ, ◌≡◌, Bool, Option, none, some, List, map, Text, Bytes, ℤ}
use netns_mcast_relay.Net.{UdpAddr}
use netns_mcast_relay.Socket.Echo.{RecentTx}
use netns_mcast_relay.Socket.Create.{MulticastSocket}
use netns_mcast_relay.Socket.Transfer.{
  Arrival, Round, ReadResult, waiting, read_failed, accepted, read_from, Wire, Written,
  write_to_group,
}
use netns_mcast_relay.Relay.{group_key_eq}
use netns_mcast_relay.Relay.Wiring.{Calls}

-- The memory `recentTx` of each socket, by its connection.
pub record Memory (W U : Type 0) : Type 0 where
  pub recent : U → W → RecentTx
  pub remember : U → RecentTx → W → W
  pub recent-remember : (c : U) (m : RecentTx) (w : W) → recent c (remember c m w) ≡ m

-- The clock, and what one call of ReadFrom finds: whether its deadline could be set, and what arrived
-- when until it returned.
pub record Inbox (W U : Type 0) : Type 0 where
  pub clock : W → ℕ
  pub arm : U → W → Bool
  pub arrivals : U → W → List (ℕ × Arrival)
  pub after_read : U → W → W

abbrev pub round_of : RecentTx → ℕ × Arrival → Round
round_of recent (now, arrival) = record { now = now; recent = recent; arrival = arrival }

abbrev pub packet_read : ReadResult → Option (Bytes × UdpAddr × ℤ)
packet_read waiting = none
packet_read read_failed = none
packet_read (accepted bytes addr ttl) = some (bytes, addr, ttl)

module _ {W U R N : Type 0} (md5 : Bytes → Bytes) (wire : Wire W U R) (memory : Memory W U)
    (inbox : Inbox W U) (unix_open : Text → W → Option N × W) where
  -- What WriteToGroup leaves in the socket. Its panic, on a group that is no IPv4 address, is none of
  -- this model.
  abbrev pub stored : U → W → Option (Written W) → W
  stored c w none = w
  stored c w (some r) = memory.remember c r.recent_tx r.world

  unfoldable pub read : MulticastSocket U R → W → Option (Bytes × UdpAddr × ℤ) × W
  unfolding read_from
  read s w = (
    packet_read (
        read_from md5 (inbox.arm s.conn w)
          (map (round_of (memory.recent s.conn w)) (inbox.arrivals s.conn w))),
    inbox.after_read s.conn w,
  )

  unfoldable pub write : MulticastSocket U R → Bytes → Option UdpAddr → ℤ → W → W
  unfolding write_to_group
  write s bytes source ttl w =
      stored s.conn w
        (write_to_group wire md5 (inbox.clock w) s (memory.recent s.conn w) bytes source ttl w)

  unfoldable pub live : Calls W U R N
  unfolding read write
  live = record { unix_open = unix_open; read_from = read; write_to_group = write }
