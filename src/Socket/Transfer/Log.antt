-- ===== src/Socket/Transfer/Log.antt =====
-- internal/socket/multicast.go: the loops of writes, over a system that keeps a log of them.
use netns_mcast_relay.Base.{false}
use mathlib.Core.List.{append_assoc, append-nil}
use netns_mcast_relay.Base.{
  ℕ, ◌≡◌, refl, sym, ◌∙◌, inl, inr, Bool, true, ◌||◌, List, [], ◌∷◌, ◌++◌, map, Bytes, ℤ,
  Option-cases,
}
use netns_mcast_relay.Net.{UdpAddr}
use netns_mcast_relay.Socket.Create.{MulticastSocket}
use netns_mcast_relay.Socket.Transfer.{Wire, indices_or, write_raw_each, write_each}

-- A write that was tried: on an interface, with a TTL, to a destination. A raw copy bears its sender
-- too. `refused` is a deadline or a TTL that could not be set.
pub data Attempt : Type 0 where
  plain_copy : ℕ → ℤ → UdpAddr → Bytes → Attempt
  raw_copy : ℕ → ℤ → Bytes → Bytes → Bytes → Attempt
  refused : Attempt

abbrev pub noted : Bool → List Attempt
noted true = []
noted false = refused ∷ []

-- A system that keeps the writes that were tried and the settings that failed, in order, and the TTL
-- that was set last.
pub record Recorder {W U R : Type 0} (wire : Wire W U R) : Type 0 where
  pub log : W → List Attempt
  pub ttl_now : W → ℤ
  pub log_deadline :
      (c : U) (w : W)
      → log (wire.set_write_deadline c w).1 ≡ log w ++ noted (wire.set_write_deadline c w).0
  pub ttl_deadline : (c : U) (w : W) → ttl_now (wire.set_write_deadline c w).1 ≡ ttl_now w
  pub log_ttl :
      (c : U) (t : ℤ) (w : W)
      → log (wire.set_multicast_ttl c t w).1 ≡ log w ++ noted (wire.set_multicast_ttl c t w).0
  pub ttl_ttl :
      (c : U) (t : ℤ) (w : W)
      → (wire.set_multicast_ttl c t w).0 ≡ true
      → ttl_now (wire.set_multicast_ttl c t w).1 ≡ t
  pub log_write :
      (c : U) (b : Bytes) (i : ℕ) (g : UdpAddr) (w : W)
      → log (wire.write_to c b i g w).1 ≡ log w ++ plain_copy i (ttl_now w) g b ∷ []
  pub ttl_write :
      (c : U) (b : Bytes) (i : ℕ) (g : UdpAddr) (w : W)
      → ttl_now (wire.write_to c b i g w).1 ≡ ttl_now w
  pub log_raw_deadline :
      (r : R) (w : W)
      → log (wire.set_raw_write_deadline r w).1 ≡ log w ++ noted (wire.set_raw_write_deadline r w).0
  pub ttl_raw_deadline : (r : R) (w : W) → ttl_now (wire.set_raw_write_deadline r w).1 ≡ ttl_now w
  pub log_raw :
      (r : R) (t : ℤ) (s g b : Bytes) (i : ℕ) (w : W)
      → log (wire.write_raw r t s g b i w).1 ≡ log w ++ raw_copy i t s g b ∷ []
  pub ttl_raw :
      (r : R) (t : ℤ) (s g b : Bytes) (i : ℕ) (w : W)
      → ttl_now (wire.write_raw r t s g b i w).1 ≡ ttl_now w

abbrev pub egress : {U R : Type 0} → MulticastSocket U R → List ℕ
egress s = indices_or s.interface_indices s.interface_index

-- One copy on each interface, in order.
abbrev pub plain_copies : List ℕ → ℤ → UdpAddr → Bytes → List Attempt
plain_copies is ttl group bytes = map (λ i. plain_copy i ttl group bytes) is

abbrev pub raw_copies : List ℕ → ℤ → Bytes → Bytes → Bytes → List Attempt
raw_copies is ttl source group payload = map (λ i. raw_copy i ttl source group payload) is

module _ {W U R : Type 0} (wire : Wire W U R) (rec : Recorder wire) where
  open rec use {log, ttl_now}

  pub log-write_each :
      (s : MulticastSocket U R) (bytes : Bytes) (is : List ℕ) (sent : ℕ) (bad : Bool) (w : W)
      → log (write_each wire s bytes is sent bad w).2
        ≡ log w ++ plain_copies is (ttl_now w) s.group bytes
  unfolding write_each
  log-write_each s bytes [] sent bad w = sym (append-nil (log w))
  log-write_each s bytes (i ∷ is) sent bad w =
      let w' = (wire.write_to s.conn bytes i s.group w).1 in
      let step : log w' ++ plain_copies is (ttl_now w') s.group bytes
          ≡ log w ++ plain_copies (i ∷ is) (ttl_now w) s.group bytes =
        rw (rec.log_write s.conn bytes i s.group w, rec.ttl_write s.conn bytes i s.group w)
          (append_assoc (log w) (plain_copy i (ttl_now w) s.group bytes ∷ []) _) in
      elim (Option-cases (wire.write_to s.conn bytes i s.group w).0) [
        | inl gone ↦ rw (gone, write_each) (log-write_each s bytes is sent true w' ∙ step)
        | inr (n, got) ↦ rw (got, write_each) (log-write_each s bytes is n bad w' ∙ step)
      ]

  pub write_raw_each_lem :
      (raw : R) (ttl : ℤ) (source group payload : Bytes) (is : List ℕ) (sent : Bool) (w : W)
      → (log (write_raw_each wire raw ttl source group payload is sent w).1
          ≡ log w ++ raw_copies is ttl source group payload)
        × (ttl_now (write_raw_each wire raw ttl source group payload is sent w).1 ≡ ttl_now w)
  unfolding write_raw_each
  write_raw_each_lem raw ttl source group payload [] sent w = (sym (append-nil (log w)), refl)
  write_raw_each_lem raw ttl source group payload (i ∷ is) sent w =
      let (written, w') = wire.write_raw raw ttl source group payload i w in
      let (logged, same) =
        write_raw_each_lem raw ttl source group payload is (sent || written) w' in
      (
        logged
            ∙ rw (rec.log_raw raw ttl source group payload i w)
                (append_assoc (log w) (raw_copy i ttl source group payload ∷ []) _),
        same ∙ rec.ttl_raw raw ttl source group payload i w,
      )
