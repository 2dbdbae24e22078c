-- ===== src/Relay/Concurrent/Drain.antt =====
-- internal/relay/relay.go: the wait of a teardown.
use netns_mcast_relay.Base.{◌||◌}
use netns_mcast_relay.Base.{
  ℕ, ◌≡◌, refl, sym, ◌∙◌, subst, Bool, true, false, Option, some, List, [], ◌∷◌, Text, Bytes,
  text_eq, nat_eq, Map, lookup, insert, lookup-insert, eqb_iff,
}
use netns_mcast_relay.Net.{UdpAddr}
use netns_mcast_relay.Middleware.{Packet}
use netns_mcast_relay.Relay.{Platform}
use netns_mcast_relay.Relay.Concurrent.{
  Runner, Pointers, Coordinator, removing, awaiting, shutting_down, awaiting_last, State,
  set_runner, end_teardown, Step, end_removal, end_last, receiver_ends, worker_ends, Reach, here,
  step,
}
use netns_mcast_relay.Relay.Concurrent.Heap.{Stopping}
use netns_mcast_relay.Relay.Concurrent.Changes.{IsSane}
use netns_mcast_relay.Relay.Concurrent.Sound.{Step-IsSane}

pub neither : (x y : Bool) → (x || y) ≡ false → (x ≡ false) × (y ≡ false)
neither true y h = cc
neither false y h = (refl, h)

module _ {W H S : Type 0} (md5 : Bytes → Bytes) (os : Platform W H S) (groups : List UdpAddr) where
  pub Reach-trans :
      {s t u : State md5 os groups}
      → Reach md5 os groups s t
      → Reach md5 os groups t u
      → Reach md5 os groups s u
  Reach-trans a here = a
  Reach-trans a (step b move) = step (Reach-trans a b) move

  -- What a reconcile works on: the snapshot, and the two sets of paths.
  abbrev pub plan : State md5 os groups → Pointers × Map Text Bool × Map Text Bool
  plan s = (s.snap, s.pending.pending_add, s.pending.pending_del)

  -- The relay can go on from `s` to a state in which the coordinator is at `c`, without a move of the
  -- broadcast goroutine; `published` tells whether a reconcile may have ended on the way.
  pub record Goes (published : Bool) (s : State md5 os groups) (c : Coordinator) : Type 0 where
    pub after : State md5 os groups
    pub reach : Reach md5 os groups s after
    pub sane : IsSane md5 os groups after
    pub same_context : after.context_done ≡ s.context_done
    pub same_broadcaster : after.broadcaster ≡ s.broadcaster
    pub same_plan : published ≡ false → plan after ≡ plan s
    pub arrived : after.coordinator ≡ c

  unfoldable pub Goes-trans :
      {x y : Bool} (s : State md5 os groups) (c d : Coordinator)
      → (g : Goes x s c) → Goes y g.after d
      → Goes (x || y) s d
  Goes-trans {x} {y} s c d g k = record {
    after = k.after;
    reach = Reach-trans g.reach k.reach;
    sane = k.sane;
    same_context = k.same_context ∙ g.same_context;
    same_broadcaster = k.same_broadcaster ∙ g.same_broadcaster;
    same_plan = λ e. k.same_plan (neither x y e).1 ∙ g.same_plan (neither x y e).0;
    arrived = k.arrived;
  }

  -- One step that leaves the context and the broadcast goroutine alone.
  unfoldable pub Goes-step :
      (s t : State md5 os groups) (c : Coordinator)
      → Step md5 os groups s t
      → t.context_done ≡ s.context_done
      → t.broadcaster ≡ s.broadcaster
      → plan t ≡ plan s
      → t.coordinator ≡ c
      → IsSane md5 os groups s
      → Goes false s c
  Goes-step s t c move x b p e i = record {
    after = t;
    reach = step here move;
    sane = Step-IsSane md5 os groups s t move i;
    same_context = x;
    same_broadcaster = b;
    same_plan = λ _. p;
    arrived = e;
  }

  lookup-set :
      (s : State md5 os groups) (id : ℕ) (r : Runner H S) → lookup id (insert id r s.heap) ≡ some r
  lookup-set s id r = rw (lookup-insert id id r s.heap, (eqb_iff id id).1 refl) refl

  -- A state with an instance whose goroutines are over.
  record Drained (s : State md5 os groups) (id : ℕ) : Type 0 where
    goes : Goes false s s.coordinator
    runner : Runner H S
    found : lookup id goes.after.heap ≡ some runner
    no_receiver : runner.receivers ≡ []
    no_worker : runner.worker ≡ false

  later :
      (s t : State md5 os groups) (id : ℕ)
      → (g : Goes false s t.coordinator) → (e : g.after ≡ t) → t.coordinator ≡ s.coordinator
      → Drained t id
      → Drained s id
  unfolding Goes-trans
  later s t id g e same d =
      let d' : Drained g.after id = subst (λ u. Drained u id) (sym e) d in
      record {
        goes = Goes-trans s t.coordinator s.coordinator g (record {
          after = d'.goes.after;
          reach = d'.goes.reach;
          sane = d'.goes.sane;
          same_context = d'.goes.same_context;
          same_broadcaster = d'.goes.same_broadcaster;
          same_plan = d'.goes.same_plan;
          arrived = d'.goes.arrived ∙ g.arrived ∙ same;
        });
        runner = d'.runner;
        found = d'.found;
        no_receiver = d'.no_receiver;
        no_worker = d'.no_worker;
      }

  -- The goroutines of a cancelled instance can end, one after the other.
  drain :
      (rs : List (S × Option Packet)) (s : State md5 os groups) (id : ℕ) (r : Runner H S)
      → lookup id s.heap ≡ some r
      → r.inst.cancelled ≡ true
      → r.receivers ≡ rs
      → IsSane md5 os groups s
      → Drained s id
  unfolding Goes-step
  drain [] s id r found c e i =
      let r' = record r { worker = false } in
      let t = set_runner md5 os groups id r' s in
      record {
        goes = Goes-step s t s.coordinator (worker_ends id r found c) refl refl refl refl i;
        runner = r';
        found = lookup-set s id r';
        no_receiver = e;
        no_worker = refl;
      }
  drain ((sock, held) ∷ rs) s id r found c e i =
      let r' = record r { receivers = rs } in
      let t = set_runner md5 os groups id r' s in
      let g =
        Goes-step s t s.coordinator (receiver_ends id r [] rs sock held found e c) refl refl refl
          refl i in
      later s t id g refl refl (drain rs t id r' (lookup-set s id r') c refl g.sane)

  -- The wait of a teardown, in a reconcile or at the end, is over at some time.
  pub awaiting-Goes :
      (s : State md5 os groups) (id : ℕ) (ds : Map Text Bool) (left : Pointers)
      → s.coordinator ≡ awaiting id ds left
      → Stopping s.heap id
      → IsSane md5 os groups s
      → Goes false s (removing ds left)
  awaiting-Goes s id ds left h (r, found, c) i =
      let d = drain r.receivers s id r found c refl i in
      let g = d.goes in
      Goes-trans s s.coordinator (removing ds left) g (
        Goes-step g.after (end_teardown md5 os groups id d.runner (removing ds left) g.after)
          (removing ds left)
          (end_removal id ds left d.runner (g.arrived ∙ h) d.found d.no_receiver d.no_worker) refl
          refl refl refl g.sane)

  pub awaiting_last-Goes :
      (s : State md5 os groups) (id : ℕ) (left : Pointers)
      → s.coordinator ≡ awaiting_last id left
      → Stopping s.heap id
      → IsSane md5 os groups s
      → Goes false s (shutting_down left)
  awaiting_last-Goes s id left h (r, found, c) i =
      let d = drain r.receivers s id r found c refl i in
      let g = d.goes in
      Goes-trans s s.coordinator (shutting_down left) g (
        Goes-step g.after (end_teardown md5 os groups id d.runner (shutting_down left) g.after)
          (shutting_down left)
          (end_last id left d.runner (g.arrived ∙ h) d.found d.no_receiver d.no_worker) refl refl
          refl refl g.sane)
