-- ===== src/Relay/Concurrent/Tests.antt =====
-- Runs of the relay: a namespace is added, its receiver reads a packet and hands it over, the broadcast
-- goroutine takes it, and the context ends while the fan-out is at work; and the namespace is asked for
-- once more.
use netns_mcast_relay.Relay.Concurrent.History.{failed}
use mathlib.Core.List.{Memᴰ}
use netns_mcast_relay.Relay.Concurrent.Promised.{Reach-added, IsServed}
use netns_mcast_relay.Base.{◌⊎◌}
use netns_mcast_relay.Relay.Concurrent.{Pointers}
use netns_mcast_relay.Base.{none, ◌*◌}
use netns_mcast_relay.Relay.Coordinator.Intents.{last_intent}
use netns_mcast_relay.Relay.Concurrent.History.{asked}
use netns_mcast_relay.Relay.Concurrent.Promised.{Reach-promised}
use netns_mcast_relay.Relay.Concurrent.Answered.{Answered, Reach-Answered}
use netns_mcast_relay.Relay.Concurrent.{selecting, adding, skip_addition}
use netns_mcast_relay.Relay.Concurrent.{Runner}
use netns_mcast_relay.Relay.Concurrent.Running.{Runs}
use netns_mcast_relay.Relay.Concurrent.Served.{Reach-served}
use netns_mcast_relay.Base.{◌≡◌}
use netns_mcast_relay.Relay.Concurrent.Over.{Reach-over}
use netns_mcast_relay.Relay.Concurrent.{coordinator_over, broadcast_over}
use netns_mcast_relay.Base.{
  refl, true, false, some, [], ◌∷◌, Text, text_eq, nat_eq, pos, arith, lookup, insert, delete,
}
use netns_mcast_relay.Net.{UdpAddr, ip_array}
use netns_mcast_relay.Middleware.{Packet}
use netns_mcast_relay.Relay.{Instance, debounce_window, group_key_eq, group_key_from_udp_addr}
use netns_mcast_relay.Relay.Namespace.{build_instance}
use netns_mcast_relay.Relay.Coordinator.{ns_cmd_add, on_command, record_intent, idle}
use netns_mcast_relay.Relay.Broadcast.{receive_one}
use netns_mcast_relay.Relay.Tests.{small, first_bytes, mdns, host, cmd}
use netns_mcast_relay.Relay.Concurrent.{
  State, start, launch, set_runner, take, cancel_all, tick, end_context, command, timer,
  removals_done, addition, publish, receive, hand_over, take_packet, Reach, here, step,
}
use netns_mcast_relay.Relay.Concurrent.Changes.{IsSane}
use netns_mcast_relay.Relay.Concurrent.Sound.{Reach-start-IsSane}

abbrev Running : Type 0
Running = State first_bytes small (mdns ∷ [])

abbrev started : Running
started = start first_bytes small (mdns ∷ []) 3 0

-- The host's instance on the small platform.
abbrev host_instance : Instance Text UdpAddr
host_instance = record {
  path = host;
  handle = host;
  sockets = mdns ∷ [];
  sockets_by_group = (group_key_from_udp_addr (some mdns), mdns) ∷ [];
  send_ch = [];
  cancelled = false;
}

abbrev heard : Packet
heard = record {
  payload = some (7 ∷ []);
  source = some mdns;
  group = some mdns;
  ttl = pos 255;
  source_path = host;
}

abbrev wanted : Running
wanted = record started { pending = on_command 0 (cmd ns_cmd_add host) started.pending }

abbrev waited : Running
waited = record wanted { clock = debounce_window }

abbrev active : Running
active = record waited {
  world = 6;
  pending = idle;
  heap = (9, launch false host_instance) ∷ [];
  snap = (host, 9) ∷ [];
}

active_run : Reach first_bytes small (mdns ∷ []) started active
unfolding start on_command record_intent idle build_instance lookup insert delete
    group_key_from_udp_addr ip_array
active_run =
    step
      (step
        (step
          (step
            (step (step {t = started} here (command (cmd ns_cmd_add host) refl))
              (tick debounce_window (omega arith)))
            (timer debounce_window refl refl (omega arith)))
          (removals_done [] refl))
        (addition host true [] [] host_instance 6 9 refl refl refl refl))
      (publish ((host, 9) ∷ []) refl)

abbrev holding : Running
holding =
    set_runner first_bytes small (mdns ∷ []) 9
      (record (launch false host_instance) { receivers = (mdns, some heard) ∷ [] }) active

abbrev handed : Running
handed =
    set_runner first_bytes small (mdns ∷ []) 9 (launch false host_instance)
      (record holding { broadcast_ch = heard ∷ [] })

abbrev ended : Running
ended =
    let taken = take first_bytes small (mdns ∷ []) heard [] handed in
    record taken { context_done = true; heap = cancel_all taken.heap }

ended-Reach : Reach first_bytes small (mdns ∷ []) started ended
unfolding start lookup insert receive_one
ended-Reach =
    step
      (step {t = handed}
        (step {t = holding} (step active_run (receive 9 _ [] [] mdns heard 6 refl refl refl))
          (hand_over 9 _ [] [] mdns heard refl refl (omega arith)))
        (take_packet heard [] refl refl))
      end_context

Reach-start-IsSane_example : IsSane first_bytes small (mdns ∷ []) ended
Reach-start-IsSane_example = Reach-start-IsSane first_bytes small (mdns ∷ []) 3 0 ended ended-Reach

Reach-over_example :
    (t : Running) × Reach first_bytes small (mdns ∷ []) ended t
    × (t.coordinator ≡ coordinator_over)
    × (t.broadcaster ≡ broadcast_over)
Reach-over_example = Reach-over first_bytes small (mdns ∷ []) 3 0 ended ended-Reach refl

-- The host's namespace is listed in `active`, as instance 9.
abbrev ServedHost : Type 0
ServedHost =
    (r : Runner Text UdpAddr) × (lookup 9 active.heap ≡ some r)
    × (r.inst.path ≡ host)
    × (r.inst.cancelled ≡ false)
    × Runs r

Reach-served_example : ServedHost
unfolding lookup start
Reach-served_example =
    Reach-served first_bytes small (mdns ∷ []) 3 0 active host 9 active_run refl refl refl

-- The host's namespace is asked for once more.
abbrev again : Running
again = record active { pending = on_command active.clock (cmd ns_cmd_add host) active.pending }

again_run : Reach first_bytes small (mdns ∷ []) started again
unfolding start
again_run = step active_run (command (cmd ns_cmd_add host) refl)

abbrev due_again : Running
due_again = record again { clock = 2 * debounce_window }

-- The reconcile has come to its end but for the publication.
abbrev reconciled : Running
reconciled = record due_again {
  pending = record due_again.pending { timer = none };
  coordinator = adding [] ((host, 9) ∷ []);
}

reconciled-Reach : Reach first_bytes small (mdns ∷ []) started reconciled
unfolding start on_command record_intent idle lookup insert delete
reconciled-Reach =
    step
      (step
        (step
          (step (step {t = again} again_run (tick (2 * debounce_window) (omega arith)))
            (timer (2 * debounce_window) refl refl (omega arith)))
          (removals_done ((host, 9) ∷ []) refl))
        (skip_addition host true [] ((host, 9) ∷ []) 9 refl refl))
      (tick (2 * debounce_window) (omega arith))

abbrev next_map : Pointers
next_map = (host, 9) ∷ []

Reach-Answered_example :
    Answered
      (failed first_bytes small (mdns ∷ []) reconciled-Reach)
      host
      (last_intent host (asked first_bytes small (mdns ∷ []) reconciled-Reach))
      (lookup host reconciled.snap)
      (lookup host next_map)
Reach-Answered_example =
    Reach-Answered first_bytes small (mdns ∷ []) 3 0 reconciled next_map host reconciled-Reach refl

Reach-promised_example :
    (t : Running) × (more : Reach first_bytes small (mdns ∷ []) again t) × (t.coordinator
      ≡ selecting)
    × (t.context_done ≡ again.context_done)
    × ((p : Text)
        → Answered
            (failed first_bytes small (mdns ∷ []) more)
            p
            (last_intent p (asked first_bytes small (mdns ∷ []) again_run))
            (lookup p again.snap)
            (lookup p t.snap))
unfolding start on_command record_intent idle
Reach-promised_example =
    Reach-promised first_bytes small (mdns ∷ []) 3 0 (2 * debounce_window) again again_run refl refl

again_asked : last_intent host (asked first_bytes small (mdns ∷ []) again_run) ≡ some ns_cmd_add
unfolding asked active_run again_run last_intent
again_asked = refl

Reach-added_example :
    (t : Running) × (more : Reach first_bytes small (mdns ∷ []) again t) × (t.coordinator
      ≡ selecting)
    × (Memᴰ host (failed first_bytes small (mdns ∷ []) more)
        ⊎ IsServed first_bytes small (mdns ∷ []) t host)
unfolding start on_command record_intent idle
Reach-added_example =
    Reach-added first_bytes small (mdns ∷ []) 3 0 (2 * debounce_window) again host again_run refl
      refl refl again_asked
