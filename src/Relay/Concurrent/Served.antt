-- ===== src/Relay/Concurrent/Served.antt =====
-- internal/relay/relay.go: what runs for the namespaces that are listed.
use mathlib.Core.Option.{some-injective}
use netns_mcast_relay.Base.{
  ℕ, ◌≡◌, sym, ◌∙◌, ap, subst, false, none, some, List, ◌∷◌, ◌++◌, Text, Bytes, text_eq, nat_eq,
  lookup, lookup-AllEntries,
}
use netns_mcast_relay.Net.{UdpAddr}
use netns_mcast_relay.Relay.{Platform}
use netns_mcast_relay.Relay.Concurrent.Heap.{Points}
use netns_mcast_relay.Relay.Concurrent.{
  Runner, selecting, removing, adding, shutting_down, coordinator_over, visited, unqueue, State,
  start, Step, tick, end_context, command, timer, skip_removal, begin_removal, end_removal,
  removals_done, skip_addition, addition_failed, addition, publish, shut_down, begin_last, end_last,
  coordinator_ends, receive, receive_nothing, hand_over, receiver_ends, send, worker_ends,
  take_packet, visit_destination, fan_out_ends, fan_out_stops, broadcast_ends, Reach, here, step,
}
use netns_mcast_relay.Relay.Concurrent.Running.{
  Runs, RunsUnlessCancelled, cancelled-Runs, cancel_all-AllRun, holds-Runs, visited-Runs,
  unqueue-Runs, IsLive,
}
use netns_mcast_relay.Relay.Concurrent.Changes.{IsSane, coordinator_at}
use netns_mcast_relay.Relay.Concurrent.Sound.{start-IsSane, Reach-IsSane, Reach-start-IsSane}
use netns_mcast_relay.Relay.Concurrent.Live.{
  Inv, live_at, set_runner-Inv, moved-Inv, begin_removal-Inv, begin_last-Inv, end_teardown-Inv,
  addition-Inv, visit-live, FreshIfBuilt, build_instance-FreshIfBuilt,
}

module _ {W H S : Type 0} (md5 : Bytes → Bytes) (os : Platform W H S) (groups : List UdpAddr) where
  Step-Inv :
      (s t : State md5 os groups)
      → Step md5 os groups s t
      → IsSane md5 os groups s
      → Inv md5 os groups s
      → Inv md5 os groups t
  Step-Inv s t (tick now le) sane i = i
  Step-Inv s t end_context sane i = record { run = cancel_all-AllRun s.heap i.run; live = λ d. cc }
  Step-Inv s t (command cmd h) sane i = i
  Step-Inv s t (timer due h d le) sane i =
      moved-Inv md5 os groups s _ (live_at md5 os groups s selecting h i) i
  Step-Inv s t (skip_removal p b ds left h e) sane i =
      moved-Inv md5 os groups s (removing ds left) (live_at md5 os groups s _ h i) i
  Step-Inv s t (begin_removal p b ds left id r h e found) sane i =
      let refs = (coordinator_at md5 os groups s _ h sane).0 in
      let (q, e', named) = lookup-AllEntries (Points s.heap) p left id refs e in
      let one : q ≡ r = some-injective _ _ (sym e' ∙ found) in
      begin_removal-Inv md5 os groups s p ds left id r found
        (sym (ap (λ x. x.inst.path) one) ∙ named) refs (live_at md5 os groups s _ h i) i
  Step-Inv s t (end_removal id ds left r h found nr nw) sane i =
      end_teardown-Inv md5 os groups s id r (removing ds left) found
        (coordinator_at md5 os groups s _ h sane).0 (live_at md5 os groups s _ h i) i
  Step-Inv s t (removals_done left h) sane i =
      moved-Inv md5 os groups s _ (live_at md5 os groups s _ h i) i
  Step-Inv s t (skip_addition p b ps left id h e) sane i =
      moved-Inv md5 os groups s (adding ps left) (live_at md5 os groups s _ h i) i
  Step-Inv s t (addition_failed p b ps left w h e f) sane i =
      moved-Inv md5 os groups s (adding ps left) (live_at md5 os groups s _ h i) i
  Step-Inv s t (addition p b ps left inst w id h e built free) sane i =
      addition-Inv md5 os groups s p ps left inst w id
        (subst (FreshIfBuilt md5 os groups) built
          (build_instance-FreshIfBuilt md5 os groups p s.world))
        free (live_at md5 os groups s _ h i) i
  Step-Inv s t (publish left h) sane i = record {
    run = i.run;
    live = live_at md5 os groups s _ h i;
  }
  Step-Inv s t (shut_down h d) sane i = moved-Inv md5 os groups s (shutting_down s.snap) (λ _. tt) i
  Step-Inv s t (begin_last p id left r h found) sane i =
      begin_last-Inv md5 os groups s id left r found i
  Step-Inv s t (end_last id left r h found nr nw) sane i =
      end_teardown-Inv md5 os groups s id r (shutting_down left) found
        (coordinator_at md5 os groups s _ h sane).0 (λ _. tt) i
  Step-Inv s t (coordinator_ends h) sane i = moved-Inv md5 os groups s coordinator_over (λ _. tt) i
  Step-Inv s t (receive id r before after sock pkt w found e got) sane i =
      set_runner-Inv md5 os groups s id r
        (record r { receivers = before ++ (sock, some pkt) ∷ after }) found
        (holds-Runs r before after sock none (some pkt) e) (λ h. h) i
  Step-Inv s t (receive_nothing id r before after sock w found e got) sane i = i
  Step-Inv s t (hand_over id r before after sock pkt found e room) sane i =
      set_runner-Inv md5 os groups s id r (record r { receivers = before ++ (sock, none) ∷ after })
        found (holds-Runs r before after sock (some pkt) none e) (λ h. h) i
  Step-Inv s t (receiver_ends id r before after sock held found e c) sane i =
      set_runner-Inv md5 os groups s id r (record r { receivers = before ++ after }) found
        (λ _. cancelled-Runs (record r { receivers = before ++ after }) c) (λ h. h) i
  Step-Inv s t (send id r pkt rest found works e) sane i =
      set_runner-Inv md5 os groups s id r (unqueue rest r) found (unqueue-Runs rest r) (λ h. h) i
  Step-Inv s t (worker_ends id r found c) sane i =
      set_runner-Inv md5 os groups s id r (record r { worker = false }) found
        (λ _. cancelled-Runs (record r { worker = false }) c) (λ h. h) i
  Step-Inv s t (take_packet pkt rest h e) sane i = i
  Step-Inv s t (visit_destination pkt path id left r h found) sane i =
      set_runner-Inv md5 os groups s id r (visited pkt path r) found (visited-Runs pkt path r)
        (λ l. visit-live md5 os groups pkt path r.inst ∙ l) i
  Step-Inv s t (fan_out_ends pkt h) sane i = i
  Step-Inv s t (fan_out_stops pkt path id left r h found target d) sane i = i
  Step-Inv s t (broadcast_ends h d) sane i = i

  Reach-Inv :
      (s t : State md5 os groups)
      → Reach md5 os groups s t
      → IsSane md5 os groups s
      → Inv md5 os groups s
      → Inv md5 os groups t
  Reach-Inv s t here sane i = i
  Reach-Inv s t (step before move) sane i =
      Step-Inv _ t move (Reach-IsSane md5 os groups before sane) (Reach-Inv s _ before sane i)

  -- While the context is not done and no reconcile is under way, every namespace of the snapshot is
  -- served: there is an instance under its path whose context is not cancelled and whose handle is open,
  -- its send worker runs, and a receiver runs on each of its sockets.
  pub Reach-served :
      (w : W) (now : ℕ) (s : State md5 os groups) (path : Text) (id : ℕ)
      → Reach md5 os groups (start md5 os groups w now) s
      → s.coordinator ≡ selecting
      → s.context_done ≡ false
      → lookup path s.snap ≡ some id
      → (r : Runner H S) × (lookup id s.heap ≡ some r)
        × (r.inst.path ≡ path)
        × (r.inst.cancelled ≡ false)
        × Runs r
  unfolding start
  Reach-served w now s path id reach h d listed =
      let sane = Reach-start-IsSane md5 os groups w now s reach in
      let i =
        Reach-Inv (start md5 os groups w now) s reach (start-IsSane md5 os groups w now)
          (record { run = tt; live = λ _. tt }) in
      let (r, e, named) = lookup-AllEntries (Points s.heap) path s.snap id sane.refs listed in
      let (q, e', live) =
        lookup-AllEntries (λ _ j. IsLive s.heap j) path s.snap id
          (live_at md5 os groups s selecting h i d) listed in
      let one : q ≡ r = some-injective _ _ (sym e' ∙ e) in
      let l : r.inst.cancelled ≡ false = sym (ap (λ x. x.inst.cancelled) one) ∙ live in
      (r, e, named, l, lookup-AllEntries (λ _ x. RunsUnlessCancelled x) id s.heap r i.run e l)
