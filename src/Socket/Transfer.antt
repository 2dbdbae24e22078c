-- ===== src/Socket/Transfer.antt =====
-- internal/socket/multicast.go: ReadFrom, WriteTo, WriteToGroup and writeRawUDP.
pub mod Own
pub mod Log
pub mod Writes
mod Tests
use netns_mcast_relay.Base.{
  ℕ, ◌+◌, ◌-◌, ◌%◌, ◌^◌, Bool, true, false, not, ◌&&◌, ◌||◌, Option, none, some, List, [], ◌∷◌,
  Bytes, ◌==◌, nat_eq, leb, ltb, if◌then◌else◌, length, ℤ, pos, negsuc,
}
use netns_mcast_relay.Net.{UdpAddr, to4, is_unspecified}
use netns_mcast_relay.Socket.Checksum.{udp_checksum, segment}
use netns_mcast_relay.Socket.Echo.{RecentTx, mark_sent, is_self_echo}
use netns_mcast_relay.Socket.Create.{MulticastSocket}

-- One return of the packet connection: an error, or a datagram with its sender (`none` if that is no
-- *net.UDPAddr) and the TTL of the control message, if there is one.
pub data Arrival : Type 0 where
  failed : Arrival
  datagram : Bytes → Option UdpAddr → Option ℤ → Arrival

-- A round of the read loop: the time, the memory of what was sent, and what arrived.
pub record Round : Type 0 where
  pub now : ℕ
  pub recent : RecentTx
  pub arrival : Arrival

pub data ReadResult : Type 0 where
  -- The loop still waits after the rounds that there were.
  waiting : ReadResult
  read_failed : ReadResult
  accepted : Bytes → UdpAddr → ℤ → ReadResult

abbrev pub ttl_of : Option ℤ → ℤ
ttl_of none = pos 0
ttl_of (some ttl) = ttl

module _ (md5 : Bytes → Bytes) where
  -- The loop of ReadFrom, once the deadline is set.
  unfoldable pub read_loop : List Round → ReadResult
  read_loop [] = waiting
  read_loop (r ∷ rs) = elim r.arrival [
    | failed ↦ read_failed
    | datagram bytes none ttl ↦ read_failed
    | datagram bytes (some addr) ttl ↦
        if is_self_echo md5 r.now bytes r.recent
        then read_loop rs
        else accepted bytes addr (ttl_of ttl)
  ]

  -- ReadFrom: whether the read deadline could be set, and the rounds after that.
  unfoldable pub read_from : Bool → List Round → ReadResult
  unfolding read_loop
  read_from armed rounds = if armed then read_loop rounds else read_failed

-- The calls on the two connections; `true` is a nil error, and a write gives its count. The interface
-- index is the control message's.
pub record Wire (W U R : Type 0) : Type 0 where
  pub set_write_deadline : U → W → Bool × W
  pub set_multicast_ttl : U → ℤ → W → Bool × W
  pub write_to : U → Bytes → ℕ → UdpAddr → W → Option ℕ × W
  pub set_raw_write_deadline : R → W → Bool × W
  -- the TTL, the source and destination of the header, and the segment
  pub write_raw : R → ℤ → Bytes → Bytes → Bytes → ℕ → W → Bool × W

-- What WriteToGroup returns, its count and whether its error is not nil, and what it leaves.
pub record Written (W : Type 0) : Type 0 where
  pub count : ℕ
  pub has_error : Bool
  pub recent_tx : RecentTx
  pub world : W

abbrev pub is_positive : ℤ → Bool
is_positive (pos n) = ltb 0 n
is_positive (negsuc n) = false

abbrev pub is_port : ℤ → Bool
is_port (pos n) = leb n 65535
is_port (negsuc n) = false

-- `uint16(port)`
abbrev pub port_number : ℤ → ℕ
port_number (pos n) = n % 2 ^ 16
port_number (negsuc n) = 65535 - n % 2 ^ 16

-- egressInterfaceIndices
abbrev pub indices_or : List ℕ → ℕ → List ℕ
indices_or [] index = index ∷ []
indices_or (i ∷ is) index = i ∷ is

module _ {W U R : Type 0} (wire : Wire W U R) where
  -- The loop over the interfaces in writeRawUDP: whether one write went out.
  unfoldable pub write_raw_each : R → ℤ → Bytes → Bytes → Bytes → List ℕ → Bool → W → Bool × W
  write_raw_each raw ttl source group payload [] sent w = (sent, w)
  write_raw_each raw ttl source group payload (i ∷ is) sent w =
      let (written, w') = wire.write_raw raw ttl source group payload i w in
      write_raw_each raw ttl source group payload is (sent || written) w'

  abbrev pub send_raw : MulticastSocket U R → R → Bytes → UdpAddr → ℤ → ℕ → W → Bool × W
  send_raw s raw bytes source ttl checksum w =
      let payload = segment (port_number source.port) (port_number s.group.port) checksum bytes in
      let (armed, w1) = wire.set_raw_write_deadline raw w in
      let egress = indices_or s.interface_indices s.interface_index in
      let each =
        write_raw_each raw (if is_positive ttl then ttl else pos 1) source.ip s.group.ip payload
          egress false w1 in
      if armed then each else (false, w1)

  -- writeRawUDP: whether its error is nil. `none` is the panic of udpChecksum.
  unfoldable pub write_raw_udp :
      MulticastSocket U R → R → Bytes → UdpAddr → ℤ → W → Option (Bool × W)
  write_raw_udp s raw bytes source ttl w =
      if not (is_port source.port) || ltb 65507 (length bytes)
      then some (false, w)
      else elim (udp_checksum source.ip s.group.ip
          (segment (port_number source.port) (port_number s.group.port) 0 bytes)) [
            | none ↦ none
            | some checksum ↦ some (send_raw s raw bytes source ttl checksum w)
          ]

  -- What the raw copy comes to: whether it was sent, whether there was an error.
  abbrev pub raw_outcome : Option (Bool × W) → Option (Bool × Bool × W)
  raw_outcome none = none
  raw_outcome (some (ok, w)) = some (ok, not ok, w)

  abbrev pub with_raw :
      MulticastSocket U R → Option R → Bytes → UdpAddr → ℤ → W → Option (Bool × Bool × W)
  with_raw s none bytes source ttl w = some (false, false, w)
  with_raw s (some raw) bytes source ttl w = raw_outcome (write_raw_udp s raw bytes source ttl w)

  abbrev pub is_v4 : Option Bytes → Bool
  is_v4 none = false
  is_v4 (some b) = true

  -- The source-preserving copy, under its conditions.
  abbrev pub preserve :
      MulticastSocket U R → Bytes → Option UdpAddr → ℤ → W → Option (Bool × Bool × W)
  preserve s bytes none ttl w = some (false, false, w)
  preserve s bytes (some source) ttl w =
      if is_v4 (to4 source.ip) && not (is_unspecified source.ip)
      then with_raw s s.raw_conn bytes source ttl w
      else some (false, false, w)

  -- The loop of plain writes: the last count, and whether there was an error.
  unfoldable pub write_each : MulticastSocket U R → Bytes → List ℕ → ℕ → Bool → W → ℕ × Bool × W
  write_each s bytes [] sent bad w = (sent, bad, w)
  write_each s bytes (i ∷ is) sent bad w =
      let (n, w') = wire.write_to s.conn bytes i s.group w in
      elim n [ none ↦ write_each s bytes is sent true w' | some m ↦ write_each s bytes is m bad w' ]

  abbrev pub result_of : ℕ → Bool → RecentTx → ℕ × Bool × W → Written W
  result_of size preserved recent (sent, bad, w) =
      if sent == 0 && not preserved
      then record { count = 0; has_error = bad; recent_tx = recent; world = w }
      else record {
        count = if sent == 0 then size else sent;
        has_error = false;
        recent_tx = recent;
        world = w;
      }

  abbrev pub plain_after :
      MulticastSocket U R → Bytes → RecentTx → Option (Bool × Bool × W) → Option (Written W)
  plain_after s bytes recent none = none
  plain_after s bytes recent (some (preserved, bad, w)) = some (
      result_of (length bytes) preserved recent
        (write_each s bytes (indices_or s.interface_indices s.interface_index) 0 bad w))

  -- `if ttl > 0`
  abbrev pub set_ttl : MulticastSocket U R → ℤ → W → Bool × W
  set_ttl s ttl w = if is_positive ttl then wire.set_multicast_ttl s.conn ttl w else (true, w)

  abbrev pub give_up : RecentTx → W → Written W
  give_up recent w = record { count = 0; has_error = true; recent_tx = recent; world = w }

  -- WriteToGroup at the time that markSent reads; `none` is a panic.
  unfoldable pub write_to_group :
      (Bytes → Bytes)
      → ℕ
      → MulticastSocket U R
      → RecentTx
      → Bytes
      → Option UdpAddr
      → ℤ
      → W
      → Option (Written W)
  write_to_group md5 now s recent bytes source ttl w =
      let marked = mark_sent md5 now bytes recent in
      let (armed, w1) = wire.set_write_deadline s.conn w in
      let (set, w2) = set_ttl s ttl w1 in
      if not armed
      then some (give_up marked w1)
      else if not set
      then some (give_up marked w2)
      else plain_after s bytes marked (preserve s bytes source ttl w2)

  -- WriteTo, which gives its count; `write_to_udp` is the call of that name on the connection.
  unfoldable pub write_to :
      (U → Bytes → UdpAddr → W → Option ℕ × W)
      → MulticastSocket U R
      → Bytes
      → UdpAddr
      → W
      → Option ℕ × W
  write_to write_to_udp s bytes addr w =
      let (armed, w') = wire.set_write_deadline s.conn w in
      if armed then write_to_udp s.conn bytes addr w' else (none, w')
