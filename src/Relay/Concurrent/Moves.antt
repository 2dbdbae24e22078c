-- ===== src/Relay/Concurrent/Moves.antt =====
-- internal/relay/relay.go: what stays true of the relay's memory in each kind of step.
use netns_mcast_relay.Relay.Concurrent.Heap.{Stopping}
use netns_mcast_relay.Base.{
  ℕ, ◌≤◌, List, text_eq, nat_eq, Map, length, IsUnique, Bool-cases, inl, inr,
}
use netns_mcast_relay.Middleware.{Packet, is_dropped}
use netns_mcast_relay.Relay.{channel_buffer}
use netns_mcast_relay.Relay.Concurrent.{
  Runner, Pointers, Coordinator, selecting, removing, awaiting, adding, shutting_down,
  awaiting_last, coordinator_over, Broadcaster, taking, fanning, broadcast_over, dispatch,
}
use netns_mcast_relay.Relay.Concurrent.Heap.{Refs, Keeps, Refs-Keeps}
use netns_mcast_relay.Relay.Concurrent.Runners.{AllSound}

module _ {H S : Type 0} where
  -- What the coordinator and the broadcast goroutine point to.
  abbrev pub CoordinatorRefs : Map ℕ (Runner H S) → Coordinator → Type 0
  CoordinatorRefs heap selecting = Unit
  CoordinatorRefs heap (removing ds next) = Refs heap next × IsUnique next
  CoordinatorRefs heap (awaiting id ds next) = Stopping heap id × Refs heap next × IsUnique next
  CoordinatorRefs heap (adding ps next) = Refs heap next × IsUnique next
  CoordinatorRefs heap (shutting_down rest) = Refs heap rest
  CoordinatorRefs heap (awaiting_last id rest) = Stopping heap id × Refs heap rest
  CoordinatorRefs heap coordinator_over = Unit

  abbrev pub BroadcasterRefs : Map ℕ (Runner H S) → Broadcaster → Type 0
  BroadcasterRefs heap taking = Unit
  BroadcasterRefs heap (fanning pkt rest) = Refs heap rest
  BroadcasterRefs heap broadcast_over = Unit

  CoordinatorRefs-Keeps :
      (heap heap' : Map ℕ (Runner H S)) (c : Coordinator)
      → Keeps heap heap'
      → CoordinatorRefs heap c
      → CoordinatorRefs heap' c
  CoordinatorRefs-Keeps heap heap' selecting k a = tt
  CoordinatorRefs-Keeps heap heap' (removing ds next) k a = (Refs-Keeps heap heap' next k a.0, a.1)
  CoordinatorRefs-Keeps heap heap' (awaiting id ds next) k a =
      (k.1 id a.0, Refs-Keeps heap heap' next k a.1, a.2)
  CoordinatorRefs-Keeps heap heap' (adding ps next) k a = (Refs-Keeps heap heap' next k a.0, a.1)
  CoordinatorRefs-Keeps heap heap' (shutting_down rest) k a = Refs-Keeps heap heap' rest k a
  CoordinatorRefs-Keeps heap heap' (awaiting_last id rest) k a =
      (k.1 id a.0, Refs-Keeps heap heap' rest k a.1)
  CoordinatorRefs-Keeps heap heap' coordinator_over k a = tt

  BroadcasterRefs-Keeps :
      (heap heap' : Map ℕ (Runner H S)) (b : Broadcaster)
      → Keeps heap heap'
      → BroadcasterRefs heap b
      → BroadcasterRefs heap' b
  BroadcasterRefs-Keeps heap heap' taking k a = tt
  BroadcasterRefs-Keeps heap heap' (fanning pkt rest) k a = Refs-Keeps heap heap' rest k a
  BroadcasterRefs-Keeps heap heap' broadcast_over k a = tt

  pub dispatch-BroadcasterRefs :
      (heap : Map ℕ (Runner H S)) (pkt : Packet) (snap : Pointers)
      → Refs heap snap
      → BroadcasterRefs heap (dispatch pkt snap)
  dispatch-BroadcasterRefs heap pkt snap a = elim (Bool-cases (is_dropped pkt)) [
    | inl d ↦ rw d tt
    | inr d ↦ rw d a
  ]

  -- The memory of the relay: each instance that was ever built is sound, also one that was torn down
  -- meanwhile; the current snapshot and every map that a goroutine still works on point to instances
  -- under their own paths; no path is active twice; and the broadcast channel is within its capacity.
  pub record Sane (heap : Map ℕ (Runner H S)) (snap : Pointers) (c : Coordinator) (b : Broadcaster)
      (ch : List Packet) : Type 0 where
    pub sound : AllSound heap
    pub refs : Refs heap snap
    pub unique : IsUnique snap
    pub coordinator : CoordinatorRefs heap c
    pub broadcaster : BroadcasterRefs heap b
    pub bounded : length ch ≤ channel_buffer

  pub Sane-Keeps :
      (heap heap' : Map ℕ (Runner H S)) (snap : Pointers) (c : Coordinator) (b : Broadcaster)
      (ch : List Packet)
      → Keeps heap heap'
      → AllSound heap'
      → Sane heap snap c b ch
      → Sane heap' snap c b ch
  Sane-Keeps heap heap' snap c b ch k a i = record {
    sound = a;
    refs = Refs-Keeps heap heap' snap k i.refs;
    unique = i.unique;
    coordinator = CoordinatorRefs-Keeps heap heap' c k i.coordinator;
    broadcaster = BroadcasterRefs-Keeps heap heap' b k i.broadcaster;
    bounded = i.bounded;
  }
