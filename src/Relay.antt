-- ===== src/Relay.antt =====
-- internal/relay/relay.go: the types that its parts share, and what they ask of the system.
pub mod Namespace
pub mod Coordinator
pub mod Broadcast
pub mod System
pub mod Api
pub mod Concurrent
pub mod Wiring
mod Tests
use netns_mcast_relay.Base.{
  ℕ, ◌*◌, ◌≡◌, refl, ◌↔◌, Bool, true, false, ◌&&◌, Option, none, some, List, [], Bytes, Text, Eq,
  ◌==◌, text_eq, int_eq, bool_eq, text_beq_iff, int_beq_iff, bool_beq_iff, Map, ℤ, pos, replicate,
  arith,
}
use netns_mcast_relay.Net.{UdpAddr, ip_array}
use netns_mcast_relay.Middleware.{Packet}

-- ChannelBuffer, and DebounceWindow in nanoseconds
abbrev pub channel_buffer : ℕ
channel_buffer = 1000

abbrev pub debounce_window : ℕ
debounce_window = 300 * 1_000_000

pub record GroupAddrKey : Type 0 where
  pub ip : Bytes
  pub port : ℤ
  pub zone : Text
  pub has_addr : Bool

abbrev pub group_key_beq : GroupAddrKey → GroupAddrKey → Bool
group_key_beq a b =
    a.ip == b.ip && (a.port == b.port && (a.zone == b.zone && a.has_addr == b.has_addr))

pub group_key_beq_iff : (a b : GroupAddrKey) → (group_key_beq a b ≡ true) ↔ (a ≡ b)
group_key_beq_iff a b = ground (
  arith,
  text_beq_iff a.ip b.ip,
  int_beq_iff a.port b.port,
  text_beq_iff a.zone b.zone,
  bool_beq_iff a.has_addr b.has_addr,
)

instance abbrev pub group_key_eq : Eq GroupAddrKey
group_key_eq = record { beq = group_key_beq; beq_iff = group_key_beq_iff }

-- groupKeyFromUDPAddr; a nil address is `none`.
unfoldable pub group_key_from_udp_addr : Option UdpAddr → GroupAddrKey
group_key_from_udp_addr none = record {
  ip = replicate 16 0;
  port = pos 0;
  zone = [];
  has_addr = false;
}
group_key_from_udp_addr (some addr) = record {
  ip = ip_array addr.ip;
  port = addr.port;
  zone = addr.zone;
  has_addr = true;
}

-- What the relay calls of the packages netns and socket, over a state `W` of the system, handles `H`
-- and sockets `S`. An error is `none`: the relay logs it and looks no further into it. Closing may
-- fail too, which the relay only logs.
pub record Platform (W H S : Type 0) : Type 0 where
  pub open_namespace : Text → W → Option H × W
  pub new_multicast_socket : UdpAddr → H → W → Option S × W
  pub close_socket : S → W → W
  pub close_handle : H → W → W
  pub socket_group : S → UdpAddr
  -- ReadFrom: the payload, the sender and the TTL.
  pub read_from : S → W → Option (Bytes × UdpAddr × ℤ) × W
  pub write_to_group : S → Bytes → Option UdpAddr → ℤ → W → W

-- nsInstance. The channel `sendCh` is the list of what waits in it, oldest first; `ctx.Err() != nil`
-- is `cancelled`.
pub record Instance (H S : Type 0) : Type 0 where
  pub path : Text
  pub handle : H
  pub sockets : List S
  pub sockets_by_group : Map GroupAddrKey S
  pub send_ch : List Packet
  pub cancelled : Bool
