-- ===== src/Relay/Concurrent/Live.antt =====
-- internal/relay/relay.go: what the coordinator works on is live, and changes of one instance.
use mathlib.Core.Option.{some-injective}
use netns_mcast_relay.Base.{
  ℕ, ◌≡◌, refl, sym, ◌∙◌, ap, subst, Bool, true, false, inl, inr, Option, none, some, List, Text,
  Bytes, text_eq, nat_eq, Map, lookup, insert, delete, insert-AllEntries, arith,
}
use netns_mcast_relay.Net.{UdpAddr}
use netns_mcast_relay.Middleware.{Packet}
use netns_mcast_relay.Relay.{Platform, Instance}
use netns_mcast_relay.Relay.Namespace.{build_instance}
use netns_mcast_relay.Relay.Broadcast.{visit}
use netns_mcast_relay.Relay.Concurrent.Heap.{Refs, Stopping, at-fresh}
use netns_mcast_relay.Relay.Concurrent.{
  Runner, Pointers, Coordinator, selecting, removing, awaiting, adding, shutting_down,
  awaiting_last, coordinator_over, launch, cancel_runner, State, set_runner, begin_teardown,
  end_teardown,
}
use netns_mcast_relay.Relay.Concurrent.Running.{
  RunsUnlessCancelled, AllRun, insert-AllRun, cancelled-Runs, launch-Runs, IsLive, LiveRefs,
  LiveRefs-map, IsLive-insert, delete-LiveRefs,
}
use netns_mcast_relay.Relay.Namespace.{instance_of}
use netns_mcast_relay.Base.{Option-cases, lookup-insert, eqb_iff}

module _ {H S : Type 0} where
  -- While the context is not done, what the coordinator works on is live.
  abbrev pub CoordinatorLive : Map ℕ (Runner H S) → Pointers → Coordinator → Type 0
  CoordinatorLive heap snap selecting = LiveRefs heap snap
  CoordinatorLive heap snap (removing ds left) = LiveRefs heap left
  CoordinatorLive heap snap (awaiting id ds left) = LiveRefs heap left
  CoordinatorLive heap snap (adding ps left) = LiveRefs heap left
  CoordinatorLive heap snap (shutting_down left) = Unit
  CoordinatorLive heap snap (awaiting_last id left) = Unit
  CoordinatorLive heap snap coordinator_over = Unit

  pub CoordinatorLive-map :
      (heap heap' : Map ℕ (Runner H S)) (snap : Pointers) (c : Coordinator)
      → ((id : ℕ) → IsLive heap id → IsLive heap' id)
      → CoordinatorLive heap snap c
      → CoordinatorLive heap' snap c
  CoordinatorLive-map heap heap' snap selecting k a = LiveRefs-map heap heap' snap k a
  CoordinatorLive-map heap heap' snap (removing ds left) k a = LiveRefs-map heap heap' left k a
  CoordinatorLive-map heap heap' snap (awaiting id ds left) k a = LiveRefs-map heap heap' left k a
  CoordinatorLive-map heap heap' snap (adding ps left) k a = LiveRefs-map heap heap' left k a
  CoordinatorLive-map heap heap' snap (shutting_down left) k a = tt
  CoordinatorLive-map heap heap' snap (awaiting_last id left) k a = tt
  CoordinatorLive-map heap heap' snap coordinator_over k a = tt

  pub record IsServing (heap : Map ℕ (Runner H S)) (snap : Pointers) (context_done : Bool)
      (c : Coordinator) : Type 0 where
    pub run : AllRun heap
    pub live : context_done ≡ false → CoordinatorLive heap snap c

module _ {W H S : Type 0} (md5 : Bytes → Bytes) (os : Platform W H S) (groups : List UdpAddr) where
  abbrev pub Inv : State md5 os groups → Type 0
  Inv s = IsServing s.heap s.snap s.context_done s.coordinator

  pub live_at :
      (s : State md5 os groups) (c : Coordinator)
      → s.coordinator ≡ c
      → Inv s
      → s.context_done ≡ false
      → CoordinatorLive s.heap s.snap c
  live_at s c h i d = subst (CoordinatorLive s.heap s.snap) h (i.live d)

  -- One instance changes, and is as live and as well served as before.
  pub set_runner-Inv :
      (s : State md5 os groups) (id : ℕ) (r r' : Runner H S)
      → lookup id s.heap ≡ some r
      → (RunsUnlessCancelled r → RunsUnlessCancelled r')
      → (r.inst.cancelled ≡ false → r'.inst.cancelled ≡ false)
      → Inv s
      → Inv (set_runner md5 os groups id r' s)
  set_runner-Inv s id r r' found k l i = record {
    run = insert-AllRun s.heap id r r' found k i.run;
    live = λ d.
        CoordinatorLive-map s.heap (insert id r' s.heap) s.snap s.coordinator
          (λ j. IsLive-insert s.heap id r r' j found l) (i.live d);
  }

  pub moved-Inv :
      (s : State md5 os groups) (c : Coordinator)
      → (s.context_done ≡ false → CoordinatorLive s.heap s.snap c)
      → Inv s
      → Inv (record s { coordinator = c })
  moved-Inv s c l i = record { run = i.run; live = l }

  pub begin_removal-Inv :
      (s : State md5 os groups) (p : Text) (ds : Map Text Bool) (left : Pointers) (id : ℕ)
      (r : Runner H S)
      → lookup id s.heap ≡ some r
      → r.inst.path ≡ p
      → Refs s.heap left
      → (s.context_done ≡ false → LiveRefs s.heap left)
      → Inv s
      → Inv (begin_teardown md5 os groups id r (awaiting id ds (delete p left)) s)
  begin_removal-Inv s p ds left id r found named refs l i = record {
    run =
        insert-AllRun s.heap id r (cancel_runner r) found
          (λ _. cancelled-Runs (cancel_runner r) refl) i.run;
    live = λ d. delete-LiveRefs s.heap id r (cancel_runner r) p left found named refs (l d);
  }

  pub begin_last-Inv :
      (s : State md5 os groups) (id : ℕ) (left : Pointers) (r : Runner H S)
      → lookup id s.heap ≡ some r
      → Inv s
      → Inv (begin_teardown md5 os groups id r (awaiting_last id left) s)
  begin_last-Inv s id left r found i = record {
    run =
        insert-AllRun s.heap id r (cancel_runner r) found
          (λ _. cancelled-Runs (cancel_runner r) refl) i.run;
    live = λ d. tt;
  }

  -- The instance whose teardown is awaited is cancelled.
  pub end_teardown-Inv :
      (s : State md5 os groups) (id : ℕ) (r : Runner H S) (c : Coordinator)
      → lookup id s.heap ≡ some r
      → Stopping s.heap id
      → (s.context_done ≡ false → CoordinatorLive s.heap s.snap c)
      → Inv s
      → Inv (end_teardown md5 os groups id r c s)
  end_teardown-Inv s id r c found (q, e, cancelled) l i =
      let one : q ≡ r = some-injective _ _ (sym e ∙ found) in
      let over : r.inst.cancelled ≡ true = sym (ap (λ x. x.inst.cancelled) one) ∙ cancelled in
      set_runner-Inv (record s { coordinator = c }) id r (record r { closed = true }) found
        (λ _. cancelled-Runs (record r { closed = true }) over) (λ h. h) (moved-Inv s c l i)

  pub addition-Inv :
      (s : State md5 os groups) (p : Text) (ps : Map Text Bool) (left : Pointers)
      (inst : Instance H S) (w : W) (id : ℕ)
      → inst.cancelled ≡ false
      → lookup id s.heap ≡ none
      → (s.context_done ≡ false → LiveRefs s.heap left)
      → Inv s
      → Inv (
          set_runner md5 os groups id
            (launch s.context_done inst)
            (record s { world = w; coordinator = adding ps (insert p id left) }))
  addition-Inv s p ps left inst w id fresh free l i =
      let r = launch s.context_done inst in
      let heap = insert id r s.heap in
      record {
        run =
            insert-AllEntries (λ _ q. RunsUnlessCancelled q) id r s.heap
              (λ _. launch-Runs s.context_done inst) i.run;
        live = λ d.
            insert-AllEntries (λ _ j. IsLive heap j) p id left
              (
                r,
                rw (lookup-insert id id r s.heap, (eqb_iff id id).1 refl) refl,
                rw (fresh, d) refl,
              )
              (LiveRefs-map s.heap heap left
                (λ j. at-fresh (λ q. q.inst.cancelled ≡ false) s.heap id r j free) (l d));
      }

  pub visit-live :
      (pkt : Packet) (path : Text) (inst : Instance H S)
      → (visit pkt path inst).cancelled ≡ inst.cancelled
  visit-live pkt path inst = ground arith

  -- A built instance is not cancelled.
  abbrev pub FreshIfBuilt : Option (Instance H S) × W → Type 0
  FreshIfBuilt (none, w) = Unit
  FreshIfBuilt (some inst, w) = inst.cancelled ≡ false

  pub instance_of-FreshIfBuilt : (p : Text) (h : H) (r : _) → FreshIfBuilt (instance_of os p h r)
  instance_of-FreshIfBuilt p h (none, w) = tt
  instance_of-FreshIfBuilt p h (some (ss, m), w) = refl

  pub build_instance-FreshIfBuilt : (p : Text) (w : W) → FreshIfBuilt (build_instance os groups p w)
  unfolding build_instance
  build_instance-FreshIfBuilt p w = elim (Option-cases (os.open_namespace p w).0) [
    | inl gone ↦ rw (gone, build_instance) tt
    | inr (h, found) ↦ rw (found, build_instance) (instance_of-FreshIfBuilt p h _)
  ]
