-- ===== src/Relay/Wiring/Echo.antt =====
-- internal/relay/relay.go on internal/socket/multicast.go: a send worker that writes to a socket, and the
-- receiver that reads from it.
use mathlib.Core.Option.{some-injective}
use netns_mcast_relay.Base.{
  ℕ, ◌+◌, ◌<◌, ◌≡◌, ◌≢◌, sym, ap, Bool, true, false, Bool-cases, Option, none, some, List, [], ◌∷◌,
  map, Text, Bytes, arith, lookup, inl, inr, subst, AllEntries,
}
use netns_mcast_relay.Net.{to4}
use netns_mcast_relay.Middleware.{Packet}
use netns_mcast_relay.Netns.Do.{Namespaces}
use netns_mcast_relay.Netns.Handle.{NsHandle}
use netns_mcast_relay.Socket.Echo.{RecentTx, is_self_echo, self_echo_window}
use netns_mcast_relay.Socket.Create.{Kernel, MulticastSocket}
use netns_mcast_relay.Socket.Transfer.{
  Arrival, failed, datagram, ReadResult, waiting, read_failed, accepted, read_loop, read_from, Wire,
  Written, write_to_group,
}
use netns_mcast_relay.Socket.Transfer.Own.{Remembers, write_to_group-Remembers}
use netns_mcast_relay.Relay.{Platform, Instance, group_key_eq, group_key_from_udp_addr}
use netns_mcast_relay.Relay.Broadcast.{receive_one, send_one, packet_of, written}
use netns_mcast_relay.Relay.Wiring.{wired}
use netns_mcast_relay.Relay.Wiring.Live.{
  Memory, Inbox, round_of, packet_read, stored, read, write, live,
}

-- All of what arrives does so before the time.
abbrev pub Before : ℕ → List (ℕ × Arrival) → Type 0
Before limit xs = AllEntries (λ now arrival. now < limit) xs

-- A packet's payload is not these bytes.
abbrev pub Differs : Bytes → Option Packet → Type 0
Differs bytes none = Unit
Differs bytes (some pkt) = pkt.payload ≢ some bytes

module _ {W U R N : Type 0} (md5 : Bytes → Bytes) (k : Kernel W U R) (ns : Namespaces W N)
    (wire : Wire W U R) (memory : Memory W U) (inbox : Inbox W U)
    (unix_open : Text → W → Option N × W) where
  abbrev NotRead : Bytes → ReadResult → Type 0
  NotRead bytes waiting = Unit
  NotRead bytes read_failed = Unit
  NotRead bytes (accepted b addr ttl) = b ≢ bytes

  -- The memory takes the bytes for an echo until `limit`.
  abbrev Covers : RecentTx → Bytes → ℕ → Type 0
  Covers recent bytes limit = (now : ℕ) → now < limit → is_self_echo md5 now bytes recent ≡ true

  read_loop-NotRead :
      (recent : RecentTx) (bytes : Bytes) (limit : ℕ) (xs : List (ℕ × Arrival))
      → Covers recent bytes limit
      → Before limit xs
      → NotRead bytes (read_loop md5 (map (round_of recent) xs))
  unfolding read_loop
  read_loop-NotRead recent bytes limit [] c b = tt
  read_loop-NotRead recent bytes limit ((now, failed) ∷ xs) c b = tt
  read_loop-NotRead recent bytes limit ((now, datagram got none ttl) ∷ xs) c b = tt
  read_loop-NotRead recent bytes limit ((now, datagram got (some addr) ttl) ∷ xs) c b =
      elim (Bool-cases (is_self_echo md5 now got recent)) [
        | inl echo ↦ rw echo (read_loop-NotRead recent bytes limit xs c b.1)
        | inr fresh ↦
            rw fresh (λ same. cc (c now b.0, ap (λ x. is_self_echo md5 now x recent) same))
      ]

  packet_of-Differs :
      (s : MulticastSocket U R) (path : Text) (bytes : Bytes) (r : ReadResult)
      → NotRead bytes r
      → Differs bytes
          (packet_of (wired k ns (live md5 wire memory inbox unix_open)) s path (packet_read r))
  packet_of-Differs s path bytes waiting h = tt
  packet_of-Differs s path bytes read_failed h = tt
  packet_of-Differs s path bytes (accepted b addr ttl) h = λ e. h (some-injective _ _ e)

  read_from-NotRead :
      (armed : Bool) (recent : RecentTx) (bytes : Bytes) (limit : ℕ) (xs : List (ℕ × Arrival))
      → Covers recent bytes limit
      → Before limit xs
      → NotRead bytes (read_from md5 armed (map (round_of recent) xs))
  unfolding read_from
  read_from-NotRead true recent bytes limit xs c b = read_loop-NotRead recent bytes limit xs c b
  read_from-NotRead false recent bytes limit xs c b = tt

  stored-Covers :
      (c : U) (bytes : Bytes) (limit : ℕ) (w : W) (o : Option (Written W))
      → ((later : ℕ) → later < limit → Remembers md5 wire later bytes o)
      → 0 < limit
      → Covers (memory.recent c (stored md5 wire memory inbox unix_open c w o)) bytes limit
  stored-Covers c bytes limit w none h pos = absurd (h 0 pos)
  stored-Covers c bytes limit w (some r) h pos =
      λ now lt. rw (memory.recent-remember c r.recent_tx r.world) (h now lt)

  -- The platform of the sockets.
  abbrev sockets : Platform W (NsHandle N) (MulticastSocket U R)
  sockets = wired k ns (live md5 wire memory inbox unix_open)

  send_one-Covers :
      (inst : Instance (NsHandle N) (MulticastSocket U R)) (pkt : Packet) (s : MulticastSocket U R)
      (bytes t : Bytes) (w : W)
      → lookup (group_key_from_udp_addr pkt.group) inst.sockets_by_group ≡ some s
      → pkt.payload ≡ some bytes
      → to4 s.group.ip ≡ some t
      → Covers
          (memory.recent s.conn (send_one sockets inst pkt w))
          bytes
          (inbox.clock w + self_echo_window)
  unfolding send_one wired live write
  send_one-Covers inst pkt s bytes t w found load v4 =
      rw (found, load, written)
        (stored-Covers s.conn bytes (inbox.clock w + self_echo_window) w
          (write_to_group wire md5 (inbox.clock w) s (memory.recent s.conn w) bytes pkt.source
            pkt.ttl w)
          (λ later lt.
            write_to_group-Remembers md5 wire (inbox.clock w) later s (memory.recent s.conn w) bytes
              pkt.source pkt.ttl w t v4 lt)
          (omega arith))

  -- After the send worker has written a packet to a group of an IPv4 address, no packet with the same
  -- payload comes out of the receiver of that socket, whatever arrives within the echo window and
  -- whether or not the write succeeded, as long as the socket's memory is what the write left.
  pub receive_one-send_one :
      (inst : Instance (NsHandle N) (MulticastSocket U R)) (pkt : Packet) (s : MulticastSocket U R)
      (bytes t : Bytes) (path : Text) (w v : W)
      → lookup (group_key_from_udp_addr pkt.group) inst.sockets_by_group ≡ some s
      → pkt.payload ≡ some bytes
      → to4 s.group.ip ≡ some t
      → memory.recent s.conn v ≡ memory.recent s.conn (send_one sockets inst pkt w)
      → Before (inbox.clock w + self_echo_window) (inbox.arrivals s.conn v)
      → Differs bytes (receive_one sockets s path v).0
  unfolding receive_one wired live read
  receive_one-send_one inst pkt s bytes t path w v found load v4 kept before =
      packet_of-Differs s path bytes
        (read_from md5 (inbox.arm s.conn v)
          (map (round_of (memory.recent s.conn v)) (inbox.arrivals s.conn v)))
        (read_from-NotRead (inbox.arm s.conn v) (memory.recent s.conn v) bytes
          (inbox.clock w + self_echo_window) (inbox.arrivals s.conn v)
          (subst (λ m. Covers m bytes (inbox.clock w + self_echo_window)) (sym kept)
            (send_one-Covers inst pkt s bytes t w found load v4))
          before)
