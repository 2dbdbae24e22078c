-- ===== src/Middleware/LoopGuard.antt =====
-- internal/middleware/loop_guard.go. Times are nanoseconds, and 0 is the zero time.Time. MD5 is the
-- parameter `md5`: nothing below depends on what it computes.
pub mod Entries
pub mod History
pub mod Window
use netns_mcast_relay.Base.{
  ℕ, ◌+◌, ◌*◌, ◌^◌, ◌%◌, ◌≡◌, refl, ◌↔◌, Bool, true, false, not, ◌&&◌, ◌||◌, Option, none, some,
  List, [], ◌∷◌, Bytes, Text, Eq, ◌==◌, nat_eq, text_eq, if◌then◌else◌, replicate, ltb, leb, ℤ, pos,
  negsuc, Map, lookup, insert, keep, text_beq_iff, eqb_iff, arith,
}
use netns_mcast_relay.Net.{UdpAddr, ip_array}
use netns_mcast_relay.Middleware.{Packet, Middleware}

-- 250 * time.Millisecond
abbrev pub default_loop_guard_window : ℕ
default_loop_guard_window = 250 * 1_000_000

pub record LoopKey : Type 0 where
  pub payload : Bytes
  pub group_ip : Bytes
  pub port : ℕ
  pub zone : Text

abbrev pub loop_key_beq : LoopKey → LoopKey → Bool
loop_key_beq a b =
    a.payload == b.payload && (a.group_ip == b.group_ip && (a.port == b.port && a.zone == b.zone))

pub loop_key_beq_iff : (a b : LoopKey) → (loop_key_beq a b ≡ true) ↔ (a ≡ b)
loop_key_beq_iff a b = ground (
  arith,
  text_beq_iff a.payload b.payload,
  text_beq_iff a.group_ip b.group_ip,
  text_beq_iff a.zone b.zone,
  eqb_iff a.port b.port,
)

instance abbrev pub loop_key_eq : Eq LoopKey
loop_key_eq = record { beq = loop_key_beq; beq_iff = loop_key_beq_iff }

pub record LoopGuard : Type 0 where
  pub window : ℕ
  pub seen : Map LoopKey ℕ
  pub next_cleanup : ℕ

-- A window that is not positive is replaced by the default.
abbrev pub window_or_default : ℤ → ℕ
window_or_default (pos n) = if n == 0 then default_loop_guard_window else n
window_or_default (negsuc n) = default_loop_guard_window

unfoldable pub new_loop_guard : ℤ → LoopGuard
new_loop_guard w = record { window = window_or_default w; seen = []; next_cleanup = 0 }

-- `uint16(port)` where it is in range, else the zero value.
abbrev key_port : ℤ → ℕ
key_port (pos n) = if leb n 65535 then n % 2 ^ 16 else 0
key_port (negsuc n) = 0

-- md5.Sum(nil) is the sum of no bytes.
abbrev data_bytes : Option Bytes → Bytes
data_bytes none = []
data_bytes (some b) = b

-- `ok && now.Before(expires)` of a map read
abbrev pub is_live : ℕ → Option ℕ → Bool
is_live now none = false
is_live now (some expires) = ltb now expires

-- The cleanup loop, under its guard.
unfoldable pub cleanup : ℕ → LoopGuard → LoopGuard
cleanup now g =
    if g.next_cleanup == 0 || not (ltb now g.next_cleanup)
    then record g {
      seen = keep (λ (b : LoopKey × ℕ). ltb now b.1) g.seen;
      next_cleanup = now + g.window;
    }
    else g

module _ (md5 : Bytes → Bytes) where
  unfoldable pub loop_key_for_packet : Packet → LoopKey
  loop_key_for_packet pkt = elim pkt.group [
    | none ↦ record {
      payload = md5 (data_bytes pkt.payload);
      group_ip = replicate 16 0;
      port = 0;
      zone = [];
    }
    | some g ↦ record {
      payload = md5 (data_bytes pkt.payload);
      group_ip = ip_array g.ip;
      port = key_port g.port;
      zone = g.zone;
    }
  ]

  -- (g *LoopGuard) Process, at the time that time.Now() returns.
  unfoldable pub process : ℕ → LoopGuard → Packet → LoopGuard × Packet
  unfolding cleanup
  process now g pkt =
      let key = loop_key_for_packet pkt in
      if is_live now (lookup key g.seen)
      then (g, record pkt { payload = none })
      else (record (cleanup now g) { seen = insert key (now + g.window) (cleanup now g).seen }, pkt)

  -- The guard as a member of a chain; it reads the clock that stands beside it. (g *LoopGuard) Stop
  -- does nothing.
  unfoldable pub loop_guard : Middleware (ℕ × LoopGuard)
  unfolding process
  loop_guard = record {
    process = λ (now, g) pkt. ((now, (process now g pkt).0), (process now g pkt).1);
    stop = λ s. s;
  }
