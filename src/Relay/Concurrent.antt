-- ===== src/Relay/Concurrent.antt =====
-- internal/relay/relay.go: the running relay, with each goroutine's work cut at the points where others
-- may come between: a fan-out works on the snapshot that it loaded, one destination at a time; the
-- coordinator tears down and builds one namespace at a time before it stores the next snapshot; a
-- receiver may hold a packet, and with the send worker outlives the end of its context until it looks.
pub mod Heap
pub mod Runners
pub mod Moves
pub mod Changes
pub mod Sound
pub mod Running
pub mod History
pub mod Turns
pub mod Answered
pub mod Promised
pub mod Live
pub mod Served
pub mod Drain
pub mod Shutdown
pub mod Over
mod Tests
use netns_mcast_relay.Base.{
  ℕ, ◌≤◌, ◌<◌, ◌≡◌, Bool, true, false, ◌||◌, Option, none, some, List, [], ◌∷◌, ◌++◌, map, Text,
  text_eq, nat_eq, Map, lookup, insert, delete, length, pos, Bytes, if◌then◌else◌,
}
use netns_mcast_relay.Net.{UdpAddr}
use netns_mcast_relay.Middleware.{Packet, is_dropped}
use netns_mcast_relay.Middleware.LoopGuard.{LoopGuard, new_loop_guard, default_loop_guard_window}
use netns_mcast_relay.Relay.{Platform, Instance, channel_buffer}
use netns_mcast_relay.Relay.Namespace.{close_sockets, build_instance}
use netns_mcast_relay.Relay.Coordinator.{NsCmd, Pending, idle, on_command}
use netns_mcast_relay.Relay.Broadcast.{receive_one, send_one, visit, count_drop, is_target}
use netns_mcast_relay.Relay.System.{relay_middleware}

-- An instance with its goroutines: the receivers that run, each with the packet that it wants to hand
-- over, whether the send worker runs, and whether teardown has closed the handle.
pub record Runner (H S : Type 0) : Type 0 where
  pub inst : Instance H S
  pub receivers : List (S × Option Packet)
  pub worker : Bool
  pub closed : Bool

-- A map of namespaces points to instances.
abbrev pub Pointers : Type 0
Pointers = Map Text ℕ

-- Where the coordinator is. In a reconcile it has the paths that are left and the next map; in a
-- teardown it waits for the goroutines of an instance.
pub data Coordinator : Type 0 where
  selecting : Coordinator
  removing : Map Text Bool → Pointers → Coordinator
  awaiting : ℕ → Map Text Bool → Pointers → Coordinator
  adding : Map Text Bool → Pointers → Coordinator
  shutting_down : Pointers → Coordinator
  awaiting_last : ℕ → Pointers → Coordinator
  coordinator_over : Coordinator

-- Where the broadcast goroutine is; `fanning` has the destinations that are left.
pub data Broadcaster : Type 0 where
  taking : Broadcaster
  fanning : Packet → Pointers → Broadcaster
  broadcast_over : Broadcaster

module _ {H S : Type 0} where
  -- The instance's goroutines start; its context is a child of the relay's.
  abbrev pub launch : Bool → Instance H S → Runner H S
  launch context_done inst = record {
    inst = record inst { cancelled = inst.cancelled || context_done };
    receivers = map (λ s. (s, none)) inst.sockets;
    worker = true;
    closed = false;
  }

  abbrev pub cancel_runner : Runner H S → Runner H S
  cancel_runner r = record r { inst = record r.inst { cancelled = true } }

  -- The end of the relay's context is the end of each of its children.
  unfoldable pub cancel_all : Map ℕ (Runner H S) → Map ℕ (Runner H S)
  cancel_all [] = []
  cancel_all ((id, r) ∷ heap) = (id, cancel_runner r) ∷ cancel_all heap

  abbrev pub visited : Packet → Text → Runner H S → Runner H S
  visited pkt path r = record r { inst = visit pkt path r.inst }

  abbrev pub unqueue : List Packet → Runner H S → Runner H S
  unqueue rest r = record r { inst = record r.inst { send_ch = rest } }

-- What the broadcast goroutine does with a packet from the middleware.
abbrev pub dispatch : Packet → Pointers → Broadcaster
dispatch pkt snap = if is_dropped pkt then taking else fanning pkt snap

module _ {W H S : Type 0} (md5 : Bytes → Bytes) (os : Platform W H S) (groups : List UdpAddr) where
  pub record State : Type 0 where
    pub world : W
    pub clock : ℕ
    pub context_done : Bool
    pub pending : Pending
    pub heap : Map ℕ (Runner H S)
    pub snap : Pointers
    pub guard : LoopGuard
    pub broadcast_ch : List Packet
    pub dropped_enqueue : ℕ
    pub coordinator : Coordinator
    pub broadcaster : Broadcaster

  unfoldable pub start : W → ℕ → State
  start w now = record {
    world = w;
    clock = now;
    context_done = false;
    pending = idle;
    heap = [];
    snap = [];
    guard = new_loop_guard (pos default_loop_guard_window);
    broadcast_ch = [];
    dropped_enqueue = 0;
    coordinator = selecting;
    broadcaster = taking;
  }

  abbrev pub set_runner : ℕ → Runner H S → State → State
  set_runner id r s = record s { heap = insert id r s.heap }

  -- teardown up to its wait, and after it.
  abbrev pub begin_teardown : ℕ → Runner H S → Coordinator → State → State
  begin_teardown id r next s =
      set_runner id (cancel_runner r)
        (record s { world = close_sockets os r.inst.sockets s.world; coordinator = next })

  abbrev pub end_teardown : ℕ → Runner H S → Coordinator → State → State
  end_teardown id r next s =
      set_runner id (record r { closed = true })
        (record s { world = os.close_handle r.inst.handle s.world; coordinator = next })

  abbrev pub take : Packet → List Packet → State → State
  take pkt rest s =
      let (g, pkt') = (relay_middleware md5 os groups).process (s.clock, s.guard) pkt in
      record s { guard = g.1; broadcast_ch = rest; broadcaster = dispatch pkt' s.snap }

  abbrev pub visit_next : Packet → Text → ℕ → Runner H S → Pointers → State → State
  visit_next pkt path id r rest s = set_runner id (visited pkt path r) (record s {
    dropped_enqueue = count_drop pkt path r.inst s.dropped_enqueue;
    broadcaster = fanning pkt rest;
  })

  pub data Step (s : State) : State → Type 0 where
    tick : (now : ℕ) → s.clock ≤ now → Step s (record s { clock = now })
    -- The relay's context ends.
    end_context : Step s (record s { context_done = true; heap = cancel_all s.heap })
    -- The coordinator.
    command :
        (cmd : NsCmd)
        → s.coordinator ≡ selecting
        → Step s (record s { pending = on_command s.clock cmd s.pending })
    timer :
        (due : ℕ)
        → s.coordinator ≡ selecting
        → s.pending.timer ≡ some due
        → due ≤ s.clock
        → Step s (record s {
          pending = record s.pending { timer = none };
          coordinator = removing s.pending.pending_del s.snap;
        })
    skip_removal :
        (p : Text) (b : Bool) (ds : Map Text Bool) (next : Pointers)
        → s.coordinator ≡ removing ((p, b) ∷ ds) next
        → lookup p next ≡ none
        → Step s (record s { coordinator = removing ds next })
    begin_removal :
        (p : Text) (b : Bool) (ds : Map Text Bool) (next : Pointers) (id : ℕ) (r : Runner H S)
        → s.coordinator ≡ removing ((p, b) ∷ ds) next
        → lookup p next ≡ some id
        → lookup id s.heap ≡ some r
        → Step s (begin_teardown id r (awaiting id ds (delete p next)) s)
    end_removal :
        (id : ℕ) (ds : Map Text Bool) (next : Pointers) (r : Runner H S)
        → s.coordinator ≡ awaiting id ds next
        → lookup id s.heap ≡ some r
        → r.receivers ≡ []
        → r.worker ≡ false
        → Step s (end_teardown id r (removing ds next) s)
    removals_done :
        (next : Pointers)
        → s.coordinator ≡ removing [] next
        → Step s (record s { coordinator = adding s.pending.pending_add next })
    skip_addition :
        (p : Text) (b : Bool) (ps : Map Text Bool) (next : Pointers) (id : ℕ)
        → s.coordinator ≡ adding ((p, b) ∷ ps) next
        → lookup p next ≡ some id
        → Step s (record s { coordinator = adding ps next })
    addition_failed :
        (p : Text) (b : Bool) (ps : Map Text Bool) (next : Pointers) (w : W)
        → s.coordinator ≡ adding ((p, b) ∷ ps) next
        → lookup p next ≡ none
        → build_instance os groups p s.world ≡ (none, w)
        → Step s (record s { world = w; coordinator = adding ps next })
    -- The new instance stands at an address where there was none.
    addition :
        (p : Text) (b : Bool) (ps : Map Text Bool) (next : Pointers) (inst : Instance H S) (w : W)
        (id : ℕ)
        → s.coordinator ≡ adding ((p, b) ∷ ps) next
        → lookup p next ≡ none
        → build_instance os groups p s.world ≡ (some inst, w)
        → lookup id s.heap ≡ none
        → Step s (
            set_runner id
              (launch s.context_done inst)
              (record s { world = w; coordinator = adding ps (insert p id next) }))
    publish :
        (next : Pointers)
        → s.coordinator ≡ adding [] next
        → Step s (record s {
          snap = next;
          pending = record s.pending { pending_add = []; pending_del = [] };
          coordinator = selecting;
        })
    shut_down :
        s.coordinator ≡ selecting
        → s.context_done ≡ true
        → Step s (record s { coordinator = shutting_down s.snap })
    begin_last :
        (p : Text) (id : ℕ) (rest : Pointers) (r : Runner H S)
        → s.coordinator ≡ shutting_down ((p, id) ∷ rest)
        → lookup id s.heap ≡ some r
        → Step s (begin_teardown id r (awaiting_last id rest) s)
    end_last :
        (id : ℕ) (rest : Pointers) (r : Runner H S)
        → s.coordinator ≡ awaiting_last id rest
        → lookup id s.heap ≡ some r
        → r.receivers ≡ []
        → r.worker ≡ false
        → Step s (end_teardown id r (shutting_down rest) s)
    coordinator_ends :
        s.coordinator ≡ shutting_down [] → Step s (record s { coordinator = coordinator_over })
    -- A receiver reads a packet, or nothing; hands its packet over; or ends.
    receive :
        (id : ℕ) (r : Runner H S) (before after : List (S × Option Packet)) (sock : S)
        (pkt : Packet) (w : W)
        → lookup id s.heap ≡ some r
        → r.receivers ≡ before ++ (sock, none) ∷ after
        → receive_one os sock r.inst.path s.world ≡ (some pkt, w)
        → Step s (
            set_runner id
              (record r { receivers = before ++ (sock, some pkt) ∷ after })
              (record s { world = w }))
    receive_nothing :
        (id : ℕ) (r : Runner H S) (before after : List (S × Option Packet)) (sock : S) (w : W)
        → lookup id s.heap ≡ some r
        → r.receivers ≡ before ++ (sock, none) ∷ after
        → receive_one os sock r.inst.path s.world ≡ (none, w)
        → Step s (record s { world = w })
    hand_over :
        (id : ℕ) (r : Runner H S) (before after : List (S × Option Packet)) (sock : S)
        (pkt : Packet)
        → lookup id s.heap ≡ some r
        → r.receivers ≡ before ++ (sock, some pkt) ∷ after
        → length s.broadcast_ch < channel_buffer
        → Step s (
            set_runner id
              (record r { receivers = before ++ (sock, none) ∷ after })
              (record s { broadcast_ch = s.broadcast_ch ++ pkt ∷ [] }))
    receiver_ends :
        (id : ℕ) (r : Runner H S) (before after : List (S × Option Packet)) (sock : S)
        (held : Option Packet)
        → lookup id s.heap ≡ some r
        → r.receivers ≡ before ++ (sock, held) ∷ after
        → r.inst.cancelled ≡ true
        → Step s (set_runner id (record r { receivers = before ++ after }) s)
    -- The send worker of an instance.
    send :
        (id : ℕ) (r : Runner H S) (pkt : Packet) (rest : List Packet)
        → lookup id s.heap ≡ some r
        → r.worker ≡ true
        → r.inst.send_ch ≡ pkt ∷ rest
        → Step s
            (set_runner id (unqueue rest r) (record s { world = send_one os r.inst pkt s.world }))
    worker_ends :
        (id : ℕ) (r : Runner H S)
        → lookup id s.heap ≡ some r
        → r.inst.cancelled ≡ true
        → Step s (set_runner id (record r { worker = false }) s)
    -- The broadcast goroutine. Its select may take the end of the context instead of a send.
    take_packet :
        (pkt : Packet) (rest : List Packet)
        → s.broadcaster ≡ taking
        → s.broadcast_ch ≡ pkt ∷ rest
        → Step s (take pkt rest s)
    visit_destination :
        (pkt : Packet) (path : Text) (id : ℕ) (rest : Pointers) (r : Runner H S)
        → s.broadcaster ≡ fanning pkt ((path, id) ∷ rest)
        → lookup id s.heap ≡ some r
        → Step s (visit_next pkt path id r rest s)
    fan_out_ends :
        (pkt : Packet) → s.broadcaster ≡ fanning pkt [] → Step s (record s { broadcaster = taking })
    fan_out_stops :
        (pkt : Packet) (path : Text) (id : ℕ) (rest : Pointers) (r : Runner H S)
        → s.broadcaster ≡ fanning pkt ((path, id) ∷ rest)
        → lookup id s.heap ≡ some r
        → is_target pkt path r.inst ≡ true
        → s.context_done ≡ true
        → Step s (record s { broadcaster = broadcast_over })
    broadcast_ends :
        s.broadcaster ≡ taking
        → s.context_done ≡ true
        → Step s (record s { broadcaster = broadcast_over })

  pub data Reach (s : State) : State → Type 0 where
    here : Reach s s
    step : {t u : State} → Reach s t → Step t u → Reach s u
