-- ===== src/Relay/Concurrent/Sound.antt =====
-- internal/relay/relay.go: the relay's memory is sane in every reachable state.
use netns_mcast_relay.Relay.Concurrent.Changes.{coordinator-Sane}
use netns_mcast_relay.Relay.Concurrent.Runners.{visit-cancelled}
use netns_mcast_relay.Relay.Concurrent.Heap.{Refs-Keeps}
use netns_mcast_relay.Base.{insert}
use netns_mcast_relay.Base.{
  ℕ, ◌≡◌, refl, sym, ◌∙◌, ap, true, false, none, some, List, [], ◌∷◌, ◌++◌, Text, Bytes, text_eq,
  nat_eq, lookup, delete, length, length-append, delete-AllEntries, IsUnique, delete-IsUnique,
  arith,
}
use netns_mcast_relay.Net.{UdpAddr}
use netns_mcast_relay.Middleware.{Packet}
use netns_mcast_relay.Relay.{Platform}
use netns_mcast_relay.Relay.System.{relay_middleware}
use netns_mcast_relay.Base.{eqb_iff, lookup-insert}
use netns_mcast_relay.Relay.Concurrent.Heap.{Stopping, Keeps-insert}
use netns_mcast_relay.Relay.Concurrent.Heap.{Points, Refs, Keeps-cancel_all}
use netns_mcast_relay.Relay.Concurrent.Runners.{
  Holds-append, cancel_runner-IsSound, cancel_all-AllSound, visited-IsSound, unqueue-IsSound,
  receivers-IsSound,
}
use netns_mcast_relay.Relay.Concurrent.Runners.{visit-path}
use mathlib.Core.Option.{some-injective}
use netns_mcast_relay.Relay.Concurrent.Moves.{
  CoordinatorRefs, dispatch-BroadcasterRefs, Sane, Sane-Keeps,
}
use netns_mcast_relay.Relay.Concurrent.{
  Runner, Pointers, Coordinator, selecting, removing, awaiting, adding, shutting_down,
  awaiting_last, coordinator_over, taking, fanning, broadcast_over, cancel_runner, cancel_all,
  visited, unqueue, dispatch, State, start, begin_teardown, end_teardown, take, visit_next, Step,
  tick, end_context, command, timer, skip_removal, begin_removal, end_removal, removals_done,
  skip_addition, addition_failed, addition, publish, shut_down, begin_last, end_last,
  coordinator_ends, receive, receive_nothing, hand_over, receiver_ends, send, worker_ends,
  take_packet, visit_destination, fan_out_ends, fan_out_stops, broadcast_ends, Reach, here, step,
}
use netns_mcast_relay.Relay.Concurrent.Changes.{
  changed-Sane, broadcaster-Sane, torn_down-IsSound, worker_over-IsSound, receive_one-path, IsSane,
  set_runner-IsSane, moved-IsSane, coordinator_at, fanning_at, addition-IsSane,
}

module _ {W H S : Type 0} (md5 : Bytes → Bytes) (os : Platform W H S) (groups : List UdpAddr) where
  pub start-IsSane : (w : W) (now : ℕ) → IsSane md5 os groups (start md5 os groups w now)
  unfolding start
  start-IsSane w now = record {
    sound = tt;
    refs = tt;
    unique = tt;
    coordinator = tt;
    broadcaster = tt;
    bounded = omega arith;
  }

  publish-IsSane :
      (s : State md5 os groups) (next : Pointers)
      → Refs s.heap next × IsUnique next
      → IsSane md5 os groups s
      → Sane s.heap next selecting s.broadcaster s.broadcast_ch
  publish-IsSane s next (refs, unique) i = record {
    sound = i.sound;
    refs = refs;
    unique = unique;
    coordinator = tt;
    broadcaster = i.broadcaster;
    bounded = i.bounded;
  }

  take-IsSane :
      (s : State md5 os groups) (pkt : Packet) (rest : List Packet)
      → s.broadcast_ch ≡ pkt ∷ rest
      → IsSane md5 os groups s
      → IsSane md5 os groups (take md5 os groups pkt rest s)
  take-IsSane s pkt rest e i =
      let pkt' = ((relay_middleware md5 os groups).process (s.clock, s.guard) pkt).1 in
      broadcaster-Sane s.heap s.snap s.coordinator s.broadcaster (dispatch pkt' s.snap)
        s.broadcast_ch rest i (dispatch-BroadcasterRefs s.heap pkt' s.snap i.refs)
        (omega (arith, ap length e, i.bounded))

  visit_next-IsSane :
      (s : State md5 os groups) (pkt : Packet) (path : Text) (id : ℕ) (rest : Pointers)
      (r : Runner H S)
      → Points s.heap path id × Refs s.heap rest
      → lookup id s.heap ≡ some r
      → IsSane md5 os groups s
      → IsSane md5 os groups (visit_next md5 os groups pkt path id r rest s)
  visit_next-IsSane s pkt path id rest r ((q, e, p), refs) found i =
      let one : q ≡ r = some-injective _ _ (sym e ∙ found) in
      changed-Sane s.heap s.snap s.coordinator (fanning pkt rest) s.broadcast_ch id r
        (visited pkt path r)
        (broadcaster-Sane s.heap s.snap s.coordinator s.broadcaster (fanning pkt rest)
          s.broadcast_ch s.broadcast_ch i refs i.bounded)
        found (visit-path pkt path r.inst) (visit-cancelled pkt path r.inst)
        (visited-IsSound pkt path r (sym (ap (λ x. x.inst.path) one) ∙ p))

  stopped :
      (s : State md5 os groups)
      → IsSane md5 os groups s
      → Sane s.heap s.snap s.coordinator broadcast_over s.broadcast_ch
  stopped s i =
      broadcaster-Sane s.heap s.snap s.coordinator s.broadcaster broadcast_over s.broadcast_ch
        s.broadcast_ch i tt i.bounded

  -- A teardown begins or ends, and the coordinator moves on.
  begin_teardown-IsSane :
      (s : State md5 os groups) (id : ℕ) (r : Runner H S) (c : Coordinator)
      → lookup id s.heap ≡ some r
      → (Stopping (insert id (cancel_runner r) s.heap) id
          → CoordinatorRefs (insert id (cancel_runner r) s.heap) c)
      → IsSane md5 os groups s
      → IsSane md5 os groups (begin_teardown md5 os groups id r c s)
  begin_teardown-IsSane s id r c found a i =
      let heap = insert id (cancel_runner r) s.heap in
      coordinator-Sane heap s.snap s.coordinator c s.broadcaster s.broadcast_ch
        (set_runner-IsSane md5 os groups s id r (cancel_runner r) i found refl (λ _. refl)
          (cancel_runner-IsSound r))
        (a (
          cancel_runner r,
          rw (lookup-insert id id (cancel_runner r) s.heap, (eqb_iff id id).1 refl) refl,
          refl,
        ))

  end_teardown-IsSane :
      (s : State md5 os groups) (id : ℕ) (r : Runner H S) (c : Coordinator)
      → lookup id s.heap ≡ some r
      → r.receivers ≡ []
      → r.worker ≡ false
      → CoordinatorRefs s.heap c
      → IsSane md5 os groups s
      → IsSane md5 os groups (end_teardown md5 os groups id r c s)
  end_teardown-IsSane s id r c found nr nw a i =
      set_runner-IsSane md5 os groups (record s { coordinator = c }) id r
        (record r { closed = true }) (moved-IsSane md5 os groups s c i a) found refl (λ h. h)
        (torn_down-IsSound r nr nw)

  pub Step-IsSane :
      (s t : State md5 os groups)
      → Step md5 os groups s t
      → IsSane md5 os groups s
      → IsSane md5 os groups t
  Step-IsSane s t (tick now le) i = i
  Step-IsSane s t end_context i =
      Sane-Keeps s.heap (cancel_all s.heap) s.snap s.coordinator s.broadcaster s.broadcast_ch
        (Keeps-cancel_all s.heap) (cancel_all-AllSound s.heap i.sound) i
  Step-IsSane s t (command cmd h) i = i
  Step-IsSane s t (timer due h d le) i = moved-IsSane md5 os groups s _ i (i.refs, i.unique)
  Step-IsSane s t (skip_removal p b ds next h e) i =
      moved-IsSane md5 os groups s (removing ds next) i (coordinator_at md5 os groups s _ h i)
  Step-IsSane s t (begin_removal p b ds next id r h e found) i =
      let (refs, unique) = coordinator_at md5 os groups s _ h i in
      begin_teardown-IsSane s id r (awaiting id ds (delete p next)) found
        (λ stopping. (
          stopping,
          Refs-Keeps s.heap _ (delete p next)
              (Keeps-insert s.heap id r (cancel_runner r) found refl (λ _. refl))
              (delete-AllEntries (Points s.heap) p next refs),
          delete-IsUnique p next unique,
        ))
        i
  Step-IsSane s t (end_removal id ds next r h found nr nw) i =
      let (_, refs, unique) = coordinator_at md5 os groups s _ h i in
      end_teardown-IsSane s id r (removing ds next) found nr nw (refs, unique) i
  Step-IsSane s t (removals_done next h) i =
      moved-IsSane md5 os groups s _ i (coordinator_at md5 os groups s _ h i)
  Step-IsSane s t (skip_addition p b ps next id h e) i =
      moved-IsSane md5 os groups s (adding ps next) i (coordinator_at md5 os groups s _ h i)
  Step-IsSane s t (addition_failed p b ps next w h e f) i =
      moved-IsSane md5 os groups s (adding ps next) i (coordinator_at md5 os groups s _ h i)
  Step-IsSane s t (addition p b ps next inst w id h e built free) i =
      addition-IsSane md5 os groups s p ps next inst w id (coordinator_at md5 os groups s _ h i)
        built free i
  Step-IsSane s t (publish next h) i =
      publish-IsSane s next (coordinator_at md5 os groups s _ h i) i
  Step-IsSane s t (shut_down h d) i = moved-IsSane md5 os groups s (shutting_down s.snap) i i.refs
  Step-IsSane s t (begin_last p id rest r h found) i =
      begin_teardown-IsSane s id r (awaiting_last id rest) found
        (λ stopping. (
          stopping,
          Refs-Keeps s.heap _ rest
              (Keeps-insert s.heap id r (cancel_runner r) found refl (λ _. refl))
              (coordinator_at md5 os groups s _ h i).1,
        ))
        i
  Step-IsSane s t (end_last id rest r h found nr nw) i =
      end_teardown-IsSane s id r (shutting_down rest) found nr nw
        (coordinator_at md5 os groups s _ h i).1 i
  Step-IsSane s t (coordinator_ends h) i = moved-IsSane md5 os groups s coordinator_over i tt
  Step-IsSane s t (receive id r before after sock pkt w found e got) i =
      set_runner-IsSane md5 os groups s id r
        (record r { receivers = before ++ (sock, some pkt) ∷ after }) i found refl (λ h. h)
        (receivers-IsSound r before after (before ++ (sock, some pkt) ∷ after) (sock, none) e
          (λ a b.
            Holds-append r.inst.path before ((sock, some pkt) ∷ after) a
              (receive_one-path md5 os groups sock r.inst.path s.world w pkt got, b)))
  Step-IsSane s t (receive_nothing id r before after sock w found e got) i = i
  Step-IsSane s t (hand_over id r before after sock pkt found e room) i =
      changed-Sane s.heap s.snap s.coordinator s.broadcaster (s.broadcast_ch ++ pkt ∷ []) id r
        (record r { receivers = before ++ (sock, none) ∷ after })
        (broadcaster-Sane s.heap s.snap s.coordinator s.broadcaster s.broadcaster s.broadcast_ch
          (s.broadcast_ch ++ pkt ∷ []) i i.broadcaster
          (omega (arith, length-append s.broadcast_ch (pkt ∷ []), room)))
        found refl (λ h. h)
        (receivers-IsSound r before after (before ++ (sock, none) ∷ after) (sock, some pkt) e
          (λ a b. Holds-append r.inst.path before ((sock, none) ∷ after) a b))
  Step-IsSane s t (receiver_ends id r before after sock held found e c) i =
      set_runner-IsSane md5 os groups s id r (record r { receivers = before ++ after }) i found refl
        (λ h. h)
        (receivers-IsSound r before after (before ++ after) (sock, held) e
          (Holds-append r.inst.path before after))
  Step-IsSane s t (send id r pkt rest found works e) i =
      set_runner-IsSane md5 os groups s id r (unqueue rest r) i found refl (λ h. h)
        (unqueue-IsSound pkt rest r e)
  Step-IsSane s t (worker_ends id r found c) i =
      set_runner-IsSane md5 os groups s id r (record r { worker = false }) i found refl (λ h. h)
        (worker_over-IsSound r)
  Step-IsSane s t (take_packet pkt rest h e) i = take-IsSane s pkt rest e i
  Step-IsSane s t (visit_destination pkt path id rest r h found) i =
      visit_next-IsSane s pkt path id rest r (fanning_at md5 os groups s _ h i) found i
  Step-IsSane s t (fan_out_ends pkt h) i =
      broadcaster-Sane s.heap s.snap s.coordinator s.broadcaster taking s.broadcast_ch
        s.broadcast_ch i tt i.bounded
  Step-IsSane s t (fan_out_stops pkt path id rest r h found target d) i = stopped s i
  Step-IsSane s t (broadcast_ends h d) i = stopped s i

  pub Reach-IsSane :
      {s t : State md5 os groups}
      → Reach md5 os groups s t
      → IsSane md5 os groups s
      → IsSane md5 os groups t
  Reach-IsSane here i = i
  Reach-IsSane (step before move) i = Step-IsSane _ _ move (Reach-IsSane before i)

  -- In every state that the relay reaches, whatever the order of its goroutines' steps, the end of the
  -- context included: the queue of each instance that was ever built is within its capacity and holds
  -- no packet that came from its own namespace, its receivers hold packets of its own namespace only,
  -- and once teardown has closed its handle none of its goroutines runs; the current snapshot and the
  -- maps on which a fan-out or a reconcile is still at work point to instances under their own paths;
  -- no path is listed twice in a snapshot; and the broadcast channel is within its capacity.
  pub Reach-start-IsSane :
      (w : W) (now : ℕ) (s : State md5 os groups)
      → Reach md5 os groups (start md5 os groups w now) s
      → IsSane md5 os groups s
  Reach-start-IsSane w now s reach = Reach-IsSane reach (start-IsSane w now)
