-- ===== src/Socket/Transfer/Tests.antt =====
-- ReadFrom and WriteToGroup at concrete inputs: a state is the list of the interfaces that were written
-- to, the latest first, with the raw copies as interface + 100; interface 3 fails.
use netns_mcast_relay.Base.{◌↔◌}
use netns_mcast_relay.Base.{sym}
use mathlib.Core.List.{append-nil}
use netns_mcast_relay.Socket.Transfer.{read_from}
use netns_mcast_relay.Base.{
  ℕ, ◌+◌, ◌≡◌, refl, Bool, true, false, Option, none, some, List, [], ◌∷◌, ◌++◌, ℤ, Bytes, length,
  arith, pos, ◌==◌, nat_eq, if◌then◌else◌,
}
use netns_mcast_relay.Net.{UdpAddr, to4, is_unspecified, ip_equal}
use netns_mcast_relay.Socket.Checksum.{udp_checksum, sum_words, sum_tail, fold_carries}
use netns_mcast_relay.Socket.Echo.{mark_sent}
use netns_mcast_relay.Socket.Create.{MulticastSocket}
use netns_mcast_relay.Socket.Transfer.{
  datagram, Round, accepted, Wire, Written, write_raw_each, write_raw_udp, write_each,
  write_to_group,
}
use netns_mcast_relay.Socket.Transfer.Log.{Attempt, plain_copy, raw_copy, Recorder}
use netns_mcast_relay.Socket.Transfer.Writes.{Emits, write_to_group-Emits}
use netns_mcast_relay.Socket.Transfer.Own.{
  Remembers, write_to_group-Remembers, read_from_iff, Foreign,
}

abbrev identity : Bytes → Bytes
identity b = b

abbrev wire : Wire (List ℕ) ℕ ℕ
wire = record {
  set_write_deadline = λ c w. (true, w);
  set_multicast_ttl = λ c ttl w. (true, w);
  write_to = λ c b i g w. if i == 3 then (none, w) else (some (length b), i ∷ w);
  set_raw_write_deadline = λ r w. (true, w);
  write_raw = λ r ttl s g b i w. if i == 3 then (false, w) else (true, (i + 100) ∷ w);
}

abbrev mdns : UdpAddr
mdns = record { ip = 224 ∷ 0 ∷ 0 ∷ 251 ∷ []; port = pos 5353; zone = [] }

abbrev client : UdpAddr
client = record { ip = 10 ∷ 0 ∷ 0 ∷ 5 ∷ []; port = pos 5353; zone = [] }

abbrev socket : MulticastSocket ℕ ℕ
socket = record {
  conn = 12;
  raw_conn = some 20;
  group = mdns;
  interface_index = 2;
  interface_indices = 2 ∷ 3 ∷ 4 ∷ [];
}

-- The answer of a write.
abbrev outcome : Option (Written (List ℕ)) → Option (ℕ × Bool × List ℕ)
outcome none = none
outcome (some r) = some (r.count, r.has_error, r.world)

write_runs :
    outcome (write_to_group wire identity 0 socket none (7 ∷ []) (some client) (pos 255) [])
    ≡ some (1, false, 4 ∷ 2 ∷ 104 ∷ 102 ∷ [])
unfolding write_to_group write_raw_udp write_raw_each write_each udp_checksum sum_words sum_tail
    fold_carries to4 is_unspecified ip_equal mark_sent
write_runs = refl

write_to_group-Remembers_example :
    Remembers identity wire 9
      (7 ∷ [])
      (write_to_group wire identity 0 socket none (7 ∷ []) (some client) (pos 255) [])
unfolding to4
write_to_group-Remembers_example =
    write_to_group-Remembers identity wire 0 9 socket none (7 ∷ []) (some client) (pos 255) []
      (224 ∷ 0 ∷ 0 ∷ 251 ∷ []) refl (omega arith)

abbrev rounds : List Round
rounds =
    record {
      now = 9;
      recent = some ((7 ∷ [], 500) ∷ []);
      arrival = datagram (7 ∷ []) (some client) none;
    }
    ∷ record { now = 9; recent = none; arrival = datagram (8 ∷ []) (some client) none }
    ∷ []

read_from_iff_example :
    (read_from identity true rounds ≡ accepted (8 ∷ []) client (pos 0))
    ↔ ((true ≡ true) × Foreign identity rounds (8 ∷ []) client (pos 0))
read_from_iff_example = read_from_iff identity true rounds (8 ∷ []) client (pos 0)

-- A system that keeps a log of the writes and the TTL; the plain writes on interface 3 fail.
abbrev logged_wire : Wire (List Attempt × ℤ) ℕ ℕ
logged_wire = record {
  set_write_deadline = λ c w. (true, w);
  set_multicast_ttl = λ c ttl w. (true, (w.0, ttl));
  write_to = λ c b i g w.
      (if i == 3 then none else some (length b), (w.0 ++ plain_copy i w.1 g b ∷ [], w.1));
  set_raw_write_deadline = λ r w. (true, w);
  write_raw = λ r ttl s g b i w. (true, (w.0 ++ raw_copy i ttl s g b ∷ [], w.1));
}

abbrev logged_wire-Recorder : Recorder logged_wire
logged_wire-Recorder = record {
  log = λ w. w.0;
  ttl_now = λ w. w.1;
  log_deadline = λ c w. sym (append-nil w.0);
  ttl_deadline = λ c w. refl;
  log_ttl = λ c t w. sym (append-nil w.0);
  ttl_ttl = λ c t w h. refl;
  log_write = λ c b i g w. refl;
  ttl_write = λ c b i g w. refl;
  log_raw_deadline = λ r w. sym (append-nil w.0);
  ttl_raw_deadline = λ r w. refl;
  log_raw = λ r t s g b i w. refl;
  ttl_raw = λ r t s g b i w. refl;
}

write_to_group-Emits_example :
    Emits logged_wire logged_wire-Recorder socket
      (7 ∷ [])
      (some client)
      (pos 255)
      (pos 255)
      ([], pos 1)
      (write_to_group logged_wire identity 0 socket none
        (7 ∷ [])
        (some client)
        (pos 255)
        ([], pos 1))
write_to_group-Emits_example =
    write_to_group-Emits logged_wire logged_wire-Recorder identity 0 socket none (7 ∷ [])
      (some client) (pos 255) ([], pos 1)
