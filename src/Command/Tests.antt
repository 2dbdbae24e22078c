-- ===== src/Command/Tests.antt =====
-- Two runs: one that a signal ends, and one that waits.
use netns_mcast_relay.Base.{◌≡◌, refl, true, false, none, some, [], ◌∷◌, Text, pos}
use netns_mcast_relay.Config.{Config}
use netns_mcast_relay.Command.{
  other, Process, signalled, relay_failed, added, start, cancel, is_canceled, waiting, after_relay,
  after_add, verdict, exit, signal, relay_ends, no_server, add, all_added, finish, Reach, here,
  next,
}
use netns_mcast_relay.Command.Events.{expected}
use netns_mcast_relay.Command.Outcome.{Reach-exited}

abbrev ns1 : Text
ns1 = b'/' ∷ b'1' ∷ []

abbrev config : Config
config = record {
  initial_namespaces = ns1 ∷ [];
  groups = [];
  verbose = false;
  control_socket_path = [];
  control_timeout = pos 1;
  control_socket_mode = 384;
  control_socket_group = [];
}

abbrev ready : Process
ready = record {
  ctx = none;
  phase = waiting;
  watches_signals = true;
  relay_runs = true;
  server_runs = false;
}

ready-Reach : Reach config (start none none) (added ns1 ∷ []) ready
unfolding start after_add
ready-Reach = next (next (next here (no_server refl refl)) (add ns1 [] none refl)) (all_added refl)

-- A signal comes before the relay fails.
abbrev over : Process
over =
    exit none
      (after_relay (some other) (record ready { ctx = cancel none none; watches_signals = false }))

over-Reach : Reach config (start none none) (added ns1 ∷ signalled ∷ relay_failed other ∷ []) over
unfolding exit after_relay cancel verdict is_canceled
over-Reach =
    next (next (next ready-Reach (signal refl)) (relay_ends (some other) refl))
      (finish _ refl refl refl refl)

Reach-exited_example :
    (none ≡ expected (added ns1 ∷ signalled ∷ relay_failed other ∷ []))
    × (over.relay_runs ≡ false)
    × (over.server_runs ≡ false)
unfolding exit
Reach-exited_example =
    Reach-exited config (added ns1 ∷ signalled ∷ relay_failed other ∷ []) over none over-Reach refl
