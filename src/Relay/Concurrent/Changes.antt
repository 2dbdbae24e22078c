-- ===== src/Relay/Concurrent/Changes.antt =====
-- internal/relay/relay.go: how a step that changes one instance, or moves one goroutine on, keeps the
-- relay's memory sane.
use netns_mcast_relay.Base.{
  ℕ, ◌≤◌, ◌≡◌, refl, subst, Bool, true, false, none, some, List, [], Text, Bytes, text_eq, nat_eq,
  Map, lookup, insert, length, insert-AllEntries, lookup-AllEntries, IsUnique, insert-IsUnique,
  arith,
}
use netns_mcast_relay.Net.{UdpAddr}
use netns_mcast_relay.Middleware.{Packet}
use netns_mcast_relay.Relay.{Platform, Instance, channel_buffer}
use netns_mcast_relay.Relay.Namespace.{build_instance}
use netns_mcast_relay.Relay.System.Health.{IsHealthy, BuiltHealthy, build_instance-BuiltHealthy}
use netns_mcast_relay.Relay.Broadcast.{receive_one}
use netns_mcast_relay.Relay.Concurrent.Heap.{
  Points, Refs, Keeps, Refs-Keeps, Keeps-insert, Keeps-fresh, Points-insert,
}
use netns_mcast_relay.Relay.Concurrent.Runners.{IsSound, launch-IsSound}
use netns_mcast_relay.Relay.Concurrent.Moves.{CoordinatorRefs, BroadcasterRefs, Sane, Sane-Keeps}
use netns_mcast_relay.Relay.Concurrent.{
  Runner, Pointers, Coordinator, adding, Broadcaster, launch, State, set_runner,
}

module _ {H S : Type 0} where
  -- One instance is changed and keeps its path.
  pub changed-Sane :
      (heap : Map ℕ (Runner H S)) (snap : Pointers) (c : Coordinator) (b : Broadcaster)
      (ch : List Packet) (id : ℕ) (r r' : Runner H S)
      → Sane heap snap c b ch
      → lookup id heap ≡ some r
      → r'.inst.path ≡ r.inst.path
      → (r.inst.cancelled ≡ true → r'.inst.cancelled ≡ true)
      → (IsSound r → IsSound r')
      → Sane (insert id r' heap) snap c b ch
  changed-Sane heap snap c b ch id r r' i found same still k =
      Sane-Keeps heap (insert id r' heap) snap c b ch (Keeps-insert heap id r r' found same still)
        (insert-AllEntries (λ _ q. IsSound q) id r' heap
          (k (lookup-AllEntries (λ _ q. IsSound q) id heap r i.sound found)) i.sound)
        i

  -- The coordinator, or the broadcast goroutine, moves on.
  pub coordinator-Sane :
      (heap : Map ℕ (Runner H S)) (snap : Pointers) (c c' : Coordinator) (b : Broadcaster)
      (ch : List Packet)
      → Sane heap snap c b ch
      → CoordinatorRefs heap c'
      → Sane heap snap c' b ch
  coordinator-Sane heap snap c c' b ch i a = record {
    sound = i.sound;
    refs = i.refs;
    unique = i.unique;
    coordinator = a;
    broadcaster = i.broadcaster;
    bounded = i.bounded;
  }

  pub broadcaster-Sane :
      (heap : Map ℕ (Runner H S)) (snap : Pointers) (c : Coordinator) (b b' : Broadcaster)
      (ch ch' : List Packet)
      → Sane heap snap c b ch
      → BroadcasterRefs heap b'
      → length ch' ≤ channel_buffer
      → Sane heap snap c b' ch'
  broadcaster-Sane heap snap c b b' ch ch' i a l = record {
    sound = i.sound;
    refs = i.refs;
    unique = i.unique;
    coordinator = i.coordinator;
    broadcaster = a;
    bounded = l;
  }

  pub torn_down-IsSound :
      (r : Runner H S)
      → r.receivers ≡ []
      → r.worker ≡ false
      → IsSound r
      → IsSound (record r { closed = true })
  torn_down-IsSound r nr nw i = record {
    healthy = i.healthy;
    own = i.own;
    no_receiver = λ _. nr;
    no_worker = λ _. nw;
  }

  pub worker_over-IsSound : (r : Runner H S) → IsSound r → IsSound (record r { worker = false })
  worker_over-IsSound r i = record {
    healthy = i.healthy;
    own = i.own;
    no_receiver = i.no_receiver;
    no_worker = λ _. refl;
  }

module _ {W H S : Type 0} (md5 : Bytes → Bytes) (os : Platform W H S) (groups : List UdpAddr) where
  -- A packet that was read bears the path of its receiver.
  pub receive_one-path :
      (sock : S) (path : Text) (w w' : W) (pkt : Packet)
      → receive_one os sock path w ≡ (some pkt, w')
      → pkt.source_path ≡ path
  unfolding receive_one
  receive_one-path sock path w w' pkt e = ground arith

  abbrev pub IsSane : State md5 os groups → Type 0
  IsSane s = Sane s.heap s.snap s.coordinator s.broadcaster s.broadcast_ch

  pub set_runner-IsSane :
      (s : State md5 os groups) (id : ℕ) (r r' : Runner H S)
      → IsSane s
      → lookup id s.heap ≡ some r
      → r'.inst.path ≡ r.inst.path
      → (r.inst.cancelled ≡ true → r'.inst.cancelled ≡ true)
      → (IsSound r → IsSound r')
      → IsSane (set_runner md5 os groups id r' s)
  set_runner-IsSane s id r r' =
      changed-Sane s.heap s.snap s.coordinator s.broadcaster s.broadcast_ch id r r'

  pub moved-IsSane :
      (s : State md5 os groups) (c : Coordinator)
      → IsSane s
      → CoordinatorRefs s.heap c
      → IsSane (record s { coordinator = c })
  moved-IsSane s c = coordinator-Sane s.heap s.snap s.coordinator c s.broadcaster s.broadcast_ch

  pub coordinator_at :
      (s : State md5 os groups) (c : Coordinator)
      → s.coordinator ≡ c
      → IsSane s
      → CoordinatorRefs s.heap c
  coordinator_at s c h i = subst (CoordinatorRefs s.heap) h i.coordinator

  -- What the broadcast goroutine still has to visit.
  pub fanning_at :
      (s : State md5 os groups) (b : Broadcaster)
      → s.broadcaster ≡ b
      → IsSane s
      → BroadcasterRefs s.heap b
  fanning_at s b h i = subst (BroadcasterRefs s.heap) h i.broadcaster

  pub addition-IsSane :
      (s : State md5 os groups) (p : Text) (ps : Map Text Bool) (next : Pointers)
      (inst : Instance H S) (w : W) (id : ℕ)
      → Refs s.heap next × IsUnique next
      → build_instance os groups p s.world ≡ (some inst, w)
      → lookup id s.heap ≡ none
      → IsSane s
      → IsSane (
          set_runner md5 os groups id
            (launch s.context_done inst)
            (record s { world = w; coordinator = adding ps (insert p id next) }))
  addition-IsSane s p ps next inst w id (refs, unique) built free i =
      let r = launch s.context_done inst in
      let heap = insert id r s.heap in
      let healthy : IsHealthy p inst =
        subst (BuiltHealthy os p) built (build_instance-BuiltHealthy os groups p s.world) in
      let keeps : Keeps s.heap heap = Keeps-fresh s.heap id r free in
      coordinator-Sane heap s.snap s.coordinator (adding ps (insert p id next)) s.broadcaster
        s.broadcast_ch
        (Sane-Keeps s.heap heap s.snap s.coordinator s.broadcaster s.broadcast_ch keeps
          (insert-AllEntries (λ _ q. IsSound q) id r s.heap
            (launch-IsSound s.context_done p inst healthy) i.sound)
          i)
        (
          insert-AllEntries (Points heap) p id next
              (subst (λ q. Points heap q id) healthy.named (Points-insert s.heap id r))
              (Refs-Keeps s.heap heap next keeps refs),
          insert-IsUnique p id next unique,
        )
