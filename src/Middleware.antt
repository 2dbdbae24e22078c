-- ===== src/Middleware.antt =====
-- internal/middleware/middleware.go: packets, the middleware interface and the chain.
pub mod Chain
pub mod LoopGuard
pub mod Decode
mod Tests
use netns_mcast_relay.Base.{
  ℕ, Bool, true, false, Option, none, some, List, [], ◌∷◌, Bytes, Text, ℤ, if◌then◌else◌,
}
use netns_mcast_relay.Net.{UdpAddr}

-- A nil `Data` is `none`: an empty payload is no dropped packet.
pub record Packet : Type 0 where
  pub payload : Option Bytes
  pub source : Option UdpAddr
  pub group : Option UdpAddr
  pub ttl : ℤ
  pub source_path : Text

abbrev pub is_nil {ℓ} : {A : Type ℓ} → Option A → Bool
is_nil none = true
is_nil (some _) = false

-- `pkt.Data == nil`
abbrev pub is_dropped : Packet → Bool
is_dropped p = is_nil p.payload

-- The Middleware interface over the state `S` that its implementations own; `process` changes the
-- packet in place, so it returns the packet.
pub record Middleware (S : Type 0) : Type 0 where
  pub process : S → Packet → S × Packet
  pub stop : S → S

module _ {S : Type 0} where
  -- (c *chain) Process
  unfoldable pub chain_process : List (Middleware S) → S → Packet → S × Packet
  chain_process [] s p = (s, p)
  chain_process (m ∷ ms) s p =
      let (s', p') = m.process s p in
      let rest = chain_process ms s' p' in if is_dropped p' then (s', p') else rest

  -- (c *chain) Stop
  unfoldable pub chain_stop : List (Middleware S) → S → S
  chain_stop [] s = s
  chain_stop (m ∷ ms) s = chain_stop ms (m.stop s)

  unfoldable pub chain : List (Middleware S) → Middleware S
  unfolding chain_process chain_stop
  chain ms = record { process = chain_process ms; stop = chain_stop ms }
