-- ===== src/Middleware/Tests.antt =====
-- The middleware at concrete inputs.
use netns_mcast_relay.Base.{
  ℕ, ◌+◌, ◌*◌, ◌≡◌, refl, true, false, none, some, List, [], ◌∷◌, Bytes, pos, codes, arith, lookup,
  insert,
}
use netns_mcast_relay.Net.{UdpAddr, ip_array}
use netns_mcast_relay.Middleware.{Packet, Middleware}
use netns_mcast_relay.Middleware.LoopGuard.{
  LoopGuard, new_loop_guard, process, loop_key_for_packet, loop_guard, default_loop_guard_window,
}
use netns_mcast_relay.Middleware.LoopGuard.History.{
  decisions, spec_decisions, keys_of, decisions-new_loop_guard,
}
use netns_mcast_relay.Middleware.LoopGuard.Window.{
  after, last_time, Kept, process-after_copy, after-new_loop_guard-Kept,
}

-- A stand-in for MD5.
abbrev first_bytes : Bytes → Bytes
first_bytes b = b

abbrev mdns : UdpAddr
mdns = record { ip = 224 ∷ 0 ∷ 0 ∷ 251 ∷ []; port = pos 5353; zone = [] }

abbrev query : Packet
query = record {
  payload = some (1 ∷ 2 ∷ []);
  source = none;
  group = some mdns;
  ttl = pos 255;
  source_path = codes "/proc/1/ns/net";
}

abbrev answer : Packet
answer = record query { payload = some (3 ∷ []) }

-- The same query comes back through another namespace.
abbrev returned : Packet
returned = record query { source_path = codes "/proc/7/ns/net" }

abbrev traffic : List (ℕ × Packet)
traffic = (5, query) ∷ (6, answer) ∷ (7, returned) ∷ (5 + default_loop_guard_window, returned) ∷ []

guard_runs :
    decisions first_bytes (new_loop_guard (pos 0)) traffic ≡ true ∷ true ∷ false ∷ true ∷ []
unfolding decisions process loop_key_for_packet new_loop_guard lookup insert ip_array
guard_runs = refl

decisions-new_loop_guard_example :
    decisions first_bytes (new_loop_guard (pos 0)) traffic
    ≡ spec_decisions (new_loop_guard (pos 0)).window [] (keys_of first_bytes traffic)
decisions-new_loop_guard_example =
    decisions-new_loop_guard first_bytes (pos 0) traffic (omega arith)
      (refl, (refl, (refl, (refl, tt))))

process-after_copy_example :
    (process first_bytes 7
      (after first_bytes
        (process first_bytes 5 (new_loop_guard (pos 0)) query).0
        ((6, answer) ∷ []))
      returned).1.payload
    ≡ none
unfolding new_loop_guard process loop_key_for_packet lookup
process-after_copy_example =
    process-after_copy first_bytes 5 7 (new_loop_guard (pos 0)) query returned ((6, answer) ∷ []) tt
      (λ e. cc) refl refl (omega arith) (omega arith)

after-new_loop_guard-Kept_example :
    Kept
      (last_time 0 traffic)
      (2 * (new_loop_guard (pos 0)).window)
      (after first_bytes (new_loop_guard (pos 0)) traffic).seen
after-new_loop_guard-Kept_example =
    after-new_loop_guard-Kept first_bytes (pos 0) traffic (omega arith)

abbrev guards : List (Middleware (ℕ × LoopGuard))
guards = loop_guard first_bytes ∷ []
