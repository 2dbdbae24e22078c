-- ===== src/Relay/Broadcast.antt =====
-- internal/relay/relay.go: the goroutines that packets pass through: receive, broadcast and the send
-- worker of a namespace.
pub mod Delivery
use netns_mcast_relay.Base.{
  ℕ, ◌+◌, ◌%◌, ◌^◌, Bool, true, false, not, ◌&&◌, Option, none, some, List, [], ◌∷◌, ◌++◌, Text,
  Bytes, ◌==◌, text_eq, Map, lookup, ltb, if◌then◌else◌, length, ℤ,
}
use netns_mcast_relay.Net.{UdpAddr}
use netns_mcast_relay.Middleware.{Packet, Middleware, is_dropped}
use netns_mcast_relay.Relay.{
  GroupAddrKey, group_key_eq, group_key_from_udp_addr, Platform, Instance, channel_buffer,
}

-- One round of `receive`: a payload that was read becomes a packet that bears the namespace's path
-- and the socket's group. A timeout or an error gives none.
module _ {W H S : Type 0} (os : Platform W H S) where
  abbrev pub packet_of : S → Text → Option (Bytes × UdpAddr × ℤ) → Option Packet
  packet_of sock path none = none
  packet_of sock path (some (bytes, source, ttl)) = some (record {
    payload = some bytes;
    source = some source;
    group = some (os.socket_group sock);
    ttl = ttl;
    source_path = path;
  })

  unfoldable pub receive_one : S → Text → W → Option Packet × W
  receive_one sock path w =
      let (result, w') = os.read_from sock w in (packet_of sock path result, w')

  abbrev pub written : Option S → Packet → W → W
  written none pkt w = w
  written (some sock) pkt w = elim pkt.payload [
    | none ↦ os.write_to_group sock [] pkt.source pkt.ttl w
    | some bytes ↦ os.write_to_group sock bytes pkt.source pkt.ttl w
  ]

  -- The send worker with one packet: it goes to the socket of the packet's group, if there is one.
  unfoldable pub send_one : Instance H S → Packet → W → W
  send_one inst pkt w =
      written (lookup (group_key_from_udp_addr pkt.group) inst.sockets_by_group) pkt w

module _ {H S : Type 0} where
  -- The namespace is not the packet's own, and is live.
  abbrev pub is_target : Packet → Text → Instance H S → Bool
  is_target pkt path inst = not (path == pkt.source_path) && not inst.cancelled

  abbrev pub has_room : Instance H S → Bool
  has_room inst = ltb (length inst.send_ch) channel_buffer

  -- `inst.sendCh <- pkt`, where that does not block.
  abbrev pub offer : Packet → Instance H S → Instance H S
  offer pkt inst =
      if has_room inst then record inst { send_ch = inst.send_ch ++ pkt ∷ [] } else inst

  abbrev pub visit : Packet → Text → Instance H S → Instance H S
  visit pkt path inst = if is_target pkt path inst then offer pkt inst else inst

  -- droppedEnqueue.Add(1), an atomic.Uint64
  abbrev pub count_drop : Packet → Text → Instance H S → ℕ → ℕ
  count_drop pkt path inst dropped =
      if is_target pkt path inst && not (has_room inst) then (dropped + 1) % 2 ^ 64 else dropped

  -- The loop over the snapshot. `done_at path` says that the `select` at this destination takes
  -- <-ctx.Done(), which ends the loop; Go may choose it only once the context is done.
  unfoldable pub fan_out :
      (Text → Bool) → Packet → Map Text (Instance H S) → ℕ → Map Text (Instance H S) × ℕ
  fan_out done_at pkt [] dropped = ([], dropped)
  fan_out done_at pkt ((path, inst) ∷ rest) dropped =
      let (rest', dropped') = fan_out done_at pkt rest (count_drop pkt path inst dropped) in
      if is_target pkt path inst && done_at path
      then ((path, inst) ∷ rest, dropped)
      else ((path, visit pkt path inst) ∷ rest', dropped')

  -- One round of `broadcast`, with the middleware's state `G`.
  unfoldable pub broadcast_one :
      {G : Type 0}
      → Middleware G
      → (Text → Bool)
      → Packet
      → G
      → Map Text (Instance H S)
      → ℕ
      → G × Map Text (Instance H S) × ℕ
  unfolding fan_out
  broadcast_one mw done_at pkt g snap dropped =
      let (g', pkt') = mw.process g pkt in
      let (snap', dropped') = fan_out done_at pkt' snap dropped in
      if is_dropped pkt' then (g', snap, dropped) else (g', snap', dropped')
