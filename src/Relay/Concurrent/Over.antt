-- ===== src/Relay/Concurrent/Over.antt =====
-- internal/relay/relay.go: the end of Run.
use netns_mcast_relay.Relay.Concurrent.Shutdown.{publication-Goes, stays}
use netns_mcast_relay.Base.{false}
use netns_mcast_relay.Base.{ℕ, ◌≡◌, refl, ◌∙◌, true, List, [], ◌∷◌, Bytes, text_eq, nat_eq}
use netns_mcast_relay.Net.{UdpAddr}
use netns_mcast_relay.Middleware.{Packet}
use netns_mcast_relay.Relay.{Platform}
use netns_mcast_relay.Relay.Concurrent.{
  Pointers, Coordinator, selecting, removing, awaiting, adding, shutting_down, awaiting_last,
  coordinator_over, Broadcaster, State, Step, shut_down, Reach, here, step,
}
use netns_mcast_relay.Relay.Concurrent.Changes.{IsSane, coordinator_at}
use netns_mcast_relay.Relay.Concurrent.Drain.{Goes, Goes-trans, awaiting-Goes, awaiting_last-Goes}
use netns_mcast_relay.Relay.Concurrent.{
  taking, fanning, broadcast_over, visit_next, visit_destination, fan_out_ends, broadcast_ends,
  start,
}
use netns_mcast_relay.Relay.Concurrent.Changes.{fanning_at}
use netns_mcast_relay.Relay.Concurrent.Sound.{Step-IsSane, Reach-start-IsSane}
use netns_mcast_relay.Relay.Concurrent.Drain.{Reach-trans}
use netns_mcast_relay.Relay.Concurrent.Shutdown.{
  onwards, additions-Goes, reconcile-Goes, teardowns-Goes, coordinator_step,
}

module _ {W H S : Type 0} (md5 : Bytes → Bytes) (os : Platform W H S) (groups : List UdpAddr) where
  selecting-Goes :
      (s : State md5 os groups)
      → s.coordinator ≡ selecting
      → s.context_done ≡ true
      → IsSane md5 os groups s
      → Goes md5 os groups false s coordinator_over
  selecting-Goes s h d i =
      onwards md5 os groups s (shutting_down s.snap) coordinator_over
        (coordinator_step md5 os groups s s.world (shutting_down s.snap) (shut_down h d) i)
        (teardowns-Goes md5 os groups s.snap)

  weaken :
      (s : State md5 os groups)
      → Goes md5 os groups false s coordinator_over
      → Goes md5 os groups true s coordinator_over
  weaken s g = record {
    after = g.after;
    reach = g.reach;
    sane = g.sane;
    same_context = g.same_context;
    same_broadcaster = g.same_broadcaster;
    same_plan = λ e. cc;
    arrived = g.arrived;
  }

  to_selecting :
      (s : State md5 os groups)
      → (next : Pointers) × Goes md5 os groups false s (adding [] next)
      → s.context_done ≡ true
      → Goes md5 os groups true s coordinator_over
  to_selecting s g d =
      let k = publication-Goes md5 os groups s g in
      Goes-trans md5 os groups s selecting coordinator_over k
        (selecting-Goes k.after k.arrived (k.same_context ∙ d) k.sane)

  -- Wherever the coordinator is.
  coordinator-Goes :
      (c : Coordinator) (s : State md5 os groups)
      → s.coordinator ≡ c
      → s.context_done ≡ true
      → IsSane md5 os groups s
      → Goes md5 os groups true s coordinator_over
  coordinator-Goes selecting s h d i = weaken s (selecting-Goes s h d i)
  coordinator-Goes (removing ds left) s h d i =
      to_selecting s (reconcile-Goes md5 os groups ds left s h i) d
  coordinator-Goes (awaiting id ds left) s h d i =
      to_selecting s
        (let g =
            awaiting-Goes md5 os groups s id ds left h (coordinator_at md5 os groups s _ h i).0 i in
          let (next, k) = reconcile-Goes md5 os groups ds left g.after g.arrived g.sane in
          (next, Goes-trans md5 os groups s (removing ds left) (adding [] next) g k))
        d
  coordinator-Goes (adding ps left) s h d i =
      to_selecting s (additions-Goes md5 os groups ps left s h i) d
  coordinator-Goes (shutting_down left) s h d i = weaken s (teardowns-Goes md5 os groups left s h i)
  coordinator-Goes (awaiting_last id left) s h d i = weaken s (
      onwards md5 os groups s (shutting_down left) coordinator_over
        (awaiting_last-Goes md5 os groups s id left h (coordinator_at md5 os groups s _ h i).0 i)
        (teardowns-Goes md5 os groups left))
  coordinator-Goes coordinator_over s h d i = weaken s (stays md5 os groups s coordinator_over h i)

  -- The broadcast goroutine comes to its end, and the coordinator stays.
  Stops : State md5 os groups → Type 0
  Stops s =
      (t : State md5 os groups) × Reach md5 os groups s t
      × (t.coordinator ≡ s.coordinator)
      × (t.broadcaster ≡ broadcast_over)

  taking-Stops :
      (s : State md5 os groups) → s.broadcaster ≡ taking → s.context_done ≡ true → Stops s
  unfolding Stops
  taking-Stops s h d =
      (record s { broadcaster = broadcast_over }, step here (broadcast_ends h d), refl, refl)

  step-Stops :
      (s t : State md5 os groups)
      → Step md5 os groups s t
      → t.coordinator ≡ s.coordinator
      → Stops t
      → Stops s
  unfolding Stops
  step-Stops s t move same (u, reach, e, over) =
      (u, Reach-trans md5 os groups (step here move) reach, e ∙ same, over)

  fanning-Stops :
      (pkt : Packet) (left : Pointers) (s : State md5 os groups)
      → s.broadcaster ≡ fanning pkt left
      → s.context_done ≡ true
      → IsSane md5 os groups s
      → Stops s
  fanning-Stops pkt [] s h d i =
      let t = record s { broadcaster = taking } in
      step-Stops s t (fan_out_ends pkt h) refl (taking-Stops t refl d)
  fanning-Stops pkt ((path, id) ∷ left) s h d i =
      let ((r, found, named), refs) =
        fanning_at md5 os groups s (fanning pkt ((path, id) ∷ left)) h i in
      let t = visit_next md5 os groups pkt path id r left s in
      let move = visit_destination pkt path id left r h found in
      step-Stops s t move refl
        (fanning-Stops pkt left t refl d (Step-IsSane md5 os groups s t move i))

  broadcaster-Stops :
      (b : Broadcaster) (s : State md5 os groups)
      → s.broadcaster ≡ b
      → s.context_done ≡ true
      → IsSane md5 os groups s
      → Stops s
  unfolding Stops
  broadcaster-Stops taking s h d i = taking-Stops s h d
  broadcaster-Stops (fanning pkt left) s h d i = fanning-Stops pkt left s h d i
  broadcaster-Stops broadcast_over s h d i = (s, here, refl, h)

  -- Once the context is done, the relay can go on from every state that it reaches, in the middle of a
  -- reconcile, a teardown or a fan-out too, to one in which the coordinator and the broadcast goroutine
  -- have ended, so that Run returns: no wait of a teardown stays in the way.
  pub Reach-over :
      (w : W) (now : ℕ) (s : State md5 os groups)
      → Reach md5 os groups (start md5 os groups w now) s
      → s.context_done ≡ true
      → (t : State md5 os groups) × Reach md5 os groups s t
        × (t.coordinator ≡ coordinator_over)
        × (t.broadcaster ≡ broadcast_over)
  unfolding Stops
  Reach-over w now s reach d =
      let i = Reach-start-IsSane md5 os groups w now s reach in
      let g = coordinator-Goes s.coordinator s refl d i in
      let (t, more, same, over) =
        broadcaster-Stops g.after.broadcaster g.after refl (g.same_context ∙ d) g.sane in
      (t, Reach-trans md5 os groups g.reach more, same ∙ g.arrived, over)
