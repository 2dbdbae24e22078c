-- ===== src/Relay/Broadcast/Delivery.antt =====
-- internal/relay/relay.go: where a broadcast packet ends up.
use netns_mcast_relay.Relay.{channel_buffer}
use netns_mcast_relay.Base.{◌≢◌, ◌≤◌, true, ap, ◌∙◌, none, some, ◌++◌, length}
use mathlib.Core.Option
use netns_mcast_relay.Base.{
  ℕ, ◌+◌, ◌%◌, ◌^◌, ◌<◌, ◌≡◌, refl, Bool, false, not, ◌&&◌, [], ◌∷◌, Text, text_eq, text_beq_iff,
  Map, lookup, if◌then◌else◌, arith, suc,
}
use netns_mcast_relay.Middleware.{Packet}
use netns_mcast_relay.Relay.{Instance}
use netns_mcast_relay.Relay.Broadcast.{is_target, has_room, visit, count_drop, fan_out}

abbrev pub live_context : Text → Bool
live_context path = false

module _ {H S : Type 0} where
  -- How many targets have a full queue.
  unfoldable pub count_full : Packet → Map Text (Instance H S) → ℕ
  count_full pkt [] = 0
  count_full pkt ((path, inst) ∷ rest) =
      if is_target pkt path inst && not (has_room inst)
      then suc (count_full pkt rest)
      else count_full pkt rest

  lookup-fan_out-visit :
      (pkt : Packet) (snap : Map Text (Instance H S)) (dropped : ℕ) (p : Text)
      → lookup p (fan_out live_context pkt snap dropped).0
        ≡ Option.map (visit pkt p) (lookup p snap)
  unfolding fan_out lookup
  lookup-fan_out-visit pkt [] dropped p = refl
  lookup-fan_out-visit pkt ((path, inst) ∷ rest) dropped p = ground (
    arith,
    text_beq_iff path p,
    lookup-fan_out-visit pkt rest (count_drop pkt path inst dropped) p,
  )

  -- What a packet makes of the instance at a path: it stands at the end of the queue just when the
  -- path is not its own, the instance is live and the queue has room; nothing else changes.
  pub record Delivered (pkt : Packet) (path : Text) (old new : Instance H S) : Type 0 where
    pub delivered :
        path ≢ pkt.source_path
        → old.cancelled ≡ false
        → length old.send_ch < channel_buffer
        → new ≡ record old { send_ch = old.send_ch ++ pkt ∷ [] }
    pub not_back : path ≡ pkt.source_path → new ≡ old
    pub not_dead : old.cancelled ≡ true → new ≡ old
    pub not_full : channel_buffer ≤ length old.send_ch → new ≡ old

  visit-Delivered :
      (pkt : Packet) (path : Text) (inst : Instance H S)
      → Delivered pkt path inst (visit pkt path inst)
  visit-Delivered pkt path inst = record {
    delivered =
        λ other live room. ground (arith, text_beq_iff path pkt.source_path, other, live, room);
    not_back = λ same. ground (arith, text_beq_iff path pkt.source_path, same);
    not_dead = λ dead. ground (arith, dead);
    not_full = λ full. ground (arith, full);
  }

  -- While the context is live, a packet is put at the end of the queue of every live namespace but
  -- its own that has room, and of no other; nothing else of a namespace changes, and the snapshot keeps
  -- its namespaces, each under its path.
  pub lookup-fan_out :
      (pkt : Packet) (snap : Map Text (Instance H S)) (dropped : ℕ) (p : Text)
      → (lookup p snap ≡ none → lookup p (fan_out live_context pkt snap dropped).0 ≡ none)
        × ((old : Instance H S)
            → lookup p snap ≡ some old
            → (new : Instance H S) × (lookup p (fan_out live_context pkt snap dropped).0 ≡ some new)
              × Delivered pkt p old new)
  lookup-fan_out pkt snap dropped p =
      let e = lookup-fan_out-visit pkt snap dropped p in
      (
        λ gone. e ∙ ap (Option.map (visit pkt p)) gone,
        λ old there.
            (visit pkt p old, e ∙ ap (Option.map (visit pkt p)) there, visit-Delivered pkt p old),
      )

  -- Each target with a full queue is counted, in 64 bits.
  pub dropped-fan_out :
      (pkt : Packet) (snap : Map Text (Instance H S)) (dropped : ℕ)
      → dropped < 2 ^ 64
      → (fan_out live_context pkt snap dropped).1 ≡ (dropped + count_full pkt snap) % 2 ^ 64
  unfolding fan_out count_full
  dropped-fan_out pkt [] dropped h = omega arith
  dropped-fan_out pkt ((path, inst) ∷ rest) dropped h =
      ground (arith, dropped-fan_out pkt rest (count_drop pkt path inst dropped))
