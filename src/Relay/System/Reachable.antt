-- ===== src/Relay/System/Reachable.antt =====
-- internal/relay/relay.go: what holds of the relay in every reachable state.
use netns_mcast_relay.Base.{
  ℕ, ◌≤◌, ◌≡◌, refl, Bool, ◌&&◌, Option, none, some, List, [], ◌∷◌, Text, Bytes, text_eq, Map,
  lookup, delete, length, length-append, arith, AllEntries, insert-AllEntries, lookup-AllEntries,
  IsUnique, insert-IsUnique, delete-IsUnique, Option-cases, Bool-cases, inl, inr, ap, subst,
}
use netns_mcast_relay.Net.{UdpAddr}
use netns_mcast_relay.Middleware.{Packet, is_dropped}
use netns_mcast_relay.Relay.{Platform, Instance, channel_buffer}
use netns_mcast_relay.Relay.Namespace.{teardown}
use netns_mcast_relay.Relay.Coordinator.{
  Snapshot, apply_removals, add_built, add_one, apply_additions, reconcile, on_timer, on_done,
}
use netns_mcast_relay.Relay.Broadcast.{is_target, count_drop, fan_out, broadcast_one}
use netns_mcast_relay.Relay.System.{
  System, new, after_timer, after_broadcast, after_done, Step, tick, command, timer, receive,
  receive_nothing, broadcast, send, done, Reach, here, next, relay_middleware,
}
use netns_mcast_relay.Relay.System.Health.{
  NoEcho, IsHealthy, fan_out-AllEntries, apply_additions-AllEntries, apply_removals-AllEntries,
  on_done-AllEntries,
}

module _ {H S : Type 0} where
  fan_out-lookup-none :
      (done_at : Text → Bool) (pkt : Packet) (k : Text) (snap : Map Text (Instance H S)) (n : ℕ)
      → lookup k snap ≡ none
      → lookup k (fan_out done_at pkt snap n).0 ≡ none
  unfolding fan_out lookup
  fan_out-lookup-none done_at pkt k [] n h = refl
  fan_out-lookup-none done_at pkt k ((path, inst) ∷ rest) n h =
      ground (arith, fan_out-lookup-none done_at pkt k rest (count_drop pkt path inst n))

  fan_out-IsUnique :
      (done_at : Text → Bool) (pkt : Packet) (snap : Map Text (Instance H S)) (n : ℕ)
      → IsUnique snap
      → IsUnique (fan_out done_at pkt snap n).0
  unfolding fan_out
  fan_out-IsUnique done_at pkt [] n u = tt
  fan_out-IsUnique done_at pkt ((path, inst) ∷ rest) n u =
      elim (Bool-cases (is_target pkt path inst && done_at path)) [
        | inl e ↦ rw e u
        | inr e ↦ rw e (
          fan_out-lookup-none done_at pkt path rest (count_drop pkt path inst n) u.0,
          fan_out-IsUnique done_at pkt rest (count_drop pkt path inst n) u.1,
        )
      ]

module _ {W H S : Type 0} (os : Platform W H S) where
  add_built-IsUnique :
      (p : Text) (snap : Snapshot os) (r : Option (Instance H S) × W)
      → IsUnique snap
      → IsUnique (add_built os p snap r).0
  add_built-IsUnique p snap (none, w) u = u
  add_built-IsUnique p snap (some inst, w) u = insert-IsUnique p inst snap u

  add_one-IsUnique :
      (groups : List UdpAddr) (p : Text) (snap : Snapshot os) (w : W)
      → IsUnique snap
      → IsUnique (add_one os groups p snap w).0
  unfolding add_one
  add_one-IsUnique groups p snap w u = elim (Option-cases (lookup p snap)) [
    | inl gone ↦ rw (gone, add_one) (add_built-IsUnique p snap _ u)
    | inr (inst, found) ↦ rw (found, add_one) u
  ]

  apply_additions-IsUnique :
      (groups : List UdpAddr) (ds : Map Text Bool) (snap : Snapshot os) (w : W)
      → IsUnique snap
      → IsUnique (apply_additions os groups ds snap w).0
  unfolding apply_additions
  apply_additions-IsUnique groups [] snap w u = u
  apply_additions-IsUnique groups ((p, _) ∷ ds) snap w u =
      apply_additions-IsUnique groups ds (add_one os groups p snap w).0
        (add_one os groups p snap w).1 (add_one-IsUnique groups p snap w u)

  apply_removals-IsUnique :
      (ds : Map Text Bool) (snap : Snapshot os) (w : W)
      → IsUnique snap
      → IsUnique (apply_removals os ds snap w).0
  unfolding apply_removals
  apply_removals-IsUnique [] snap w u = u
  apply_removals-IsUnique ((p, _) ∷ ds) snap w u = elim (Option-cases (lookup p snap)) [
    | inl gone ↦ rw (gone, apply_removals) (apply_removals-IsUnique ds snap w u)
    | inr (inst, found) ↦
        rw (found, apply_removals)
          (apply_removals-IsUnique ds (delete p snap) (teardown os inst w)
            (delete-IsUnique p snap u))
  ]

  on_done-lookup-none :
      (k : Text) (snap : Snapshot os) (w : W)
      → lookup k snap ≡ none
      → lookup k (on_done os snap w).0 ≡ none
  unfolding on_done lookup
  on_done-lookup-none k [] w h = refl
  on_done-lookup-none k ((p, inst) ∷ rest) w h =
      ground (arith, on_done-lookup-none k rest (teardown os inst w))

  on_done-IsUnique : (snap : Snapshot os) (w : W) → IsUnique snap → IsUnique (on_done os snap w).0
  unfolding on_done
  on_done-IsUnique [] w u = tt
  on_done-IsUnique ((p, inst) ∷ rest) w u = (
    on_done-lookup-none p rest (teardown os inst w) u.0,
    on_done-IsUnique rest (teardown os inst w) u.1,
  )

module _ {W H S : Type 0} (md5 : Bytes → Bytes) (os : Platform W H S) (groups : List UdpAddr) where
  -- Every namespace is healthy (its path is its key, its queue is within capacity and holds no packet
  -- of its own), no path is active twice, and the broadcast channel is within capacity.
  pub record Inv (s : System md5 os groups) : Type 0 where
    pub healthy : AllEntries IsHealthy s.snap
    pub unique : IsUnique s.snap
    pub bounded : length s.broadcast_ch ≤ channel_buffer

  new-Inv : (w : W) (now : ℕ) → Inv (new md5 os groups w now)
  unfolding new
  new-Inv w now = record { healthy = tt; unique = tt; bounded = omega arith }

  after_timer-Inv : (s : System md5 os groups) → Inv s → Inv (after_timer md5 os groups s)
  unfolding after_timer on_timer reconcile
  after_timer-Inv s i =
      let kept = apply_removals os s.pending.pending_del s.snap s.world in
      record {
        healthy =
            apply_additions-AllEntries os groups s.pending.pending_add kept.0 kept.1
              (apply_removals-AllEntries os s.pending.pending_del s.snap s.world i.healthy);
        unique =
            apply_additions-IsUnique os groups s.pending.pending_add kept.0 kept.1
              (apply_removals-IsUnique os s.pending.pending_del s.snap s.world i.unique);
        bounded = i.bounded;
      }

  after_broadcast-Inv :
      (done_at : Text → Bool) (pkt : Packet) (rest : List Packet) (s : System md5 os groups)
      → s.broadcast_ch ≡ pkt ∷ rest
      → Inv s
      → Inv (after_broadcast md5 os groups done_at pkt rest s)
  unfolding after_broadcast broadcast_one
  after_broadcast-Inv done_at pkt rest s e i =
      let pkt' = ((relay_middleware md5 os groups).process (s.clock, s.guard) pkt).1 in
      let shorter : length rest ≤ channel_buffer = omega (arith, ap length e, i.bounded) in
      elim (Bool-cases (is_dropped pkt')) [
        | inl d ↦ rw d (record { healthy = i.healthy; unique = i.unique; bounded = shorter })
        | inr d ↦ rw d (record {
          healthy = fan_out-AllEntries done_at pkt' s.snap s.dropped_enqueue i.healthy;
          unique = fan_out-IsUnique done_at pkt' s.snap s.dropped_enqueue i.unique;
          bounded = shorter;
        })
      ]

  sent-IsHealthy :
      (path : Text) (inst : Instance H S) (pkt : Packet) (rest : List Packet)
      → inst.send_ch ≡ pkt ∷ rest
      → IsHealthy path inst
      → IsHealthy path (record inst { send_ch = rest })
  sent-IsHealthy path inst pkt rest e h = record {
    named = h.named;
    bounded = omega (arith, ap length e, h.bounded);
    no_echo = (subst (NoEcho path) e h.no_echo).1;
  }

  Step-Inv : {s t : System md5 os groups} → Step md5 os groups s t → Inv s → Inv t
  unfolding after_done
  Step-Inv (tick now le) i = record { healthy = i.healthy; unique = i.unique; bounded = i.bounded }
  Step-Inv (command cmd r) i = record {
    healthy = i.healthy;
    unique = i.unique;
    bounded = i.bounded;
  }
  Step-Inv {s} (timer due r t le) i = after_timer-Inv s i
  Step-Inv {s} (receive path inst sock pkt w found live m got room) i = record {
    healthy = i.healthy;
    unique = i.unique;
    bounded = omega (arith, length-append s.broadcast_ch (pkt ∷ []));
  }
  Step-Inv (receive_nothing path inst sock found live m) i = record {
    healthy = i.healthy;
    unique = i.unique;
    bounded = i.bounded;
  }
  Step-Inv {s} (broadcast done_at pkt rest e) i = after_broadcast-Inv done_at pkt rest s e i
  Step-Inv {s} (send path inst pkt rest found live e) i = record {
    healthy =
        insert-AllEntries IsHealthy path (record inst { send_ch = rest }) s.snap
          (sent-IsHealthy path inst pkt rest e
            (lookup-AllEntries IsHealthy path s.snap inst i.healthy found))
          i.healthy;
    unique = insert-IsUnique path (record inst { send_ch = rest }) s.snap i.unique;
    bounded = i.bounded;
  }
  Step-Inv {s} (done r) i = record {
    healthy = on_done-AllEntries os s.snap s.world i.healthy;
    unique = on_done-IsUnique os s.snap s.world i.unique;
    bounded = i.bounded;
  }

  Reach-Inv : {s t : System md5 os groups} → Reach md5 os groups s t → Inv s → Inv t
  Reach-Inv here i = i
  Reach-Inv (next r st) i = Step-Inv st (Reach-Inv r i)

  -- In every state that the relay reaches, whatever the order of its goroutines' steps: each
  -- namespace's queue is within its capacity and holds no packet that came from that namespace, each
  -- namespace is listed under its own path and no path twice, and the broadcast channel is within
  -- its capacity.
  pub Reach-new-Inv :
      (w : W) (now : ℕ) (s : System md5 os groups)
      → Reach md5 os groups (new md5 os groups w now) s
      → Inv s
  Reach-new-Inv w now s r = Reach-Inv r (new-Inv w now)
