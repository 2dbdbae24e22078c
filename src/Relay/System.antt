-- ===== src/Relay/System.antt =====
-- internal/relay/relay.go: the running relay. Its goroutines (coordinator, broadcast, a receiver for
-- each socket, a send worker for each namespace) run as interleaved steps; each step is one round of
-- a goroutine's loop. A fan-out and a reconcile are each one step.
pub mod Health
pub mod Reachable
use mathlib.Core.List.{Memᴰ}
use netns_mcast_relay.Base.{
  ℕ, ◌+◌, ◌≤◌, ◌<◌, ◌≡◌, Bool, true, false, Option, none, some, List, [], ◌∷◌, ◌++◌, Text, text_eq,
  Map, lookup, insert, length, pos, Bytes,
}
use netns_mcast_relay.Net.{UdpAddr}
use netns_mcast_relay.Middleware.{Packet, Middleware, chain}
use netns_mcast_relay.Middleware.LoopGuard.{
  LoopGuard, new_loop_guard, loop_guard, default_loop_guard_window,
}
use netns_mcast_relay.Relay.{Platform, Instance, channel_buffer}
use netns_mcast_relay.Relay.Coordinator.{
  NsCmd, Pending, idle, on_command, Snapshot, on_timer, on_done,
}
use netns_mcast_relay.Relay.Broadcast.{receive_one, send_one, broadcast_one}

module _ {W H S : Type 0} (md5 : Bytes → Bytes) (os : Platform W H S) (groups : List UdpAddr) where
  pub record System : Type 0 where
    pub world : W
    pub clock : ℕ
    pub pending : Pending
    pub snap : Snapshot os
    pub guard : LoopGuard
    pub broadcast_ch : List Packet
    pub dropped_enqueue : ℕ
    pub running : Bool

  -- New
  unfoldable pub new : W → ℕ → System
  new w now = record {
    world = w;
    clock = now;
    pending = idle;
    snap = [];
    guard = new_loop_guard (pos default_loop_guard_window);
    broadcast_ch = [];
    dropped_enqueue = 0;
    running = true;
  }

  abbrev pub relay_middleware : Middleware (ℕ × LoopGuard)
  relay_middleware = chain (loop_guard md5 ∷ [])

  -- The worker took the packet at the head of the queue of `inst`.
  abbrev pub sent : Text → Instance H S → List Packet → Snapshot os → Snapshot os
  sent path inst rest snap = insert path (record inst { send_ch = rest }) snap

  unfoldable pub after_timer : System → System
  after_timer s =
      let (pending, snap, world) = on_timer os groups s.pending s.snap s.world in
      record s { pending = pending; snap = snap; world = world }

  unfoldable pub after_broadcast : (Text → Bool) → Packet → List Packet → System → System
  after_broadcast done_at pkt rest s =
      let (g, snap, dropped) =
        broadcast_one relay_middleware done_at pkt (s.clock, s.guard) s.snap s.dropped_enqueue in
      record s { guard = g.1; snap = snap; dropped_enqueue = dropped; broadcast_ch = rest }

  unfoldable pub after_done : System → System
  after_done s =
      let (snap, world) = on_done os s.snap s.world in
      record s { snap = snap; world = world; running = false }

  pub data Step (s : System) : System → Type 0 where
    -- Time passes.
    tick : (now : ℕ) → s.clock ≤ now → Step s (record s { clock = now })
    -- AddNamespace or RemoveNamespace hands a command over.
    command :
        (cmd : NsCmd)
        → s.running ≡ true
        → Step s (record s { pending = on_command s.clock cmd s.pending })
    -- The timer has fired.
    timer :
        (due : ℕ)
        → s.running ≡ true
        → s.pending.timer ≡ some due
        → due ≤ s.clock
        → Step s (after_timer s)
    -- A receiver of a namespace reads a packet and finds room in the broadcast channel.
    receive :
        (path : Text) (inst : Instance H S) (sock : S) (pkt : Packet) (w : W)
        → lookup path s.snap ≡ some inst
        → inst.cancelled ≡ false
        → Memᴰ sock inst.sockets
        → receive_one os sock inst.path s.world ≡ (some pkt, w)
        → length s.broadcast_ch < channel_buffer
        → Step s (record s { broadcast_ch = s.broadcast_ch ++ pkt ∷ []; world = w })
    -- A read that gives no packet, or one that is given up because the context is done.
    receive_nothing :
        (path : Text) (inst : Instance H S) (sock : S)
        → lookup path s.snap ≡ some inst
        → inst.cancelled ≡ false
        → Memᴰ sock inst.sockets
        → Step s (record s { world = (receive_one os sock inst.path s.world).1 })
    broadcast :
        (done_at : Text → Bool) (pkt : Packet) (rest : List Packet)
        → s.broadcast_ch ≡ pkt ∷ rest
        → Step s (after_broadcast done_at pkt rest s)
    send :
        (path : Text) (inst : Instance H S) (pkt : Packet) (rest : List Packet)
        → lookup path s.snap ≡ some inst
        → inst.cancelled ≡ false
        → inst.send_ch ≡ pkt ∷ rest
        → Step s
            (record s { snap = sent path inst rest s.snap; world = send_one os inst pkt s.world })
    -- The context is done.
    done : s.running ≡ true → Step s (after_done s)

  pub data Reach (s : System) : System → Type 0 where
    here : Reach s s
    next : {t u : System} → Reach s t → Step t u → Reach s u
