-- ===== src/Socket/Echo/Tests.antt =====
-- The echo memory at concrete inputs.
use netns_mcast_relay.Base.{ℕ, ◌+◌, ◌≡◌, refl, true, List, [], ◌∷◌, Bytes, arith, lookup, insert}
use netns_mcast_relay.Socket.Echo.{self_echo_window, mark_sent, is_self_echo}
use netns_mcast_relay.Socket.Echo.History.{memory, written_within, is_self_echo-memory}

abbrev first_bytes : Bytes → Bytes
first_bytes b = b

abbrev writes : List (ℕ × Bytes)
writes = (9, 2 ∷ []) ∷ (5, 1 ∷ []) ∷ []

echo_runs :
    is_self_echo first_bytes (4 + self_echo_window) (1 ∷ []) (memory first_bytes writes) ≡ true
unfolding is_self_echo memory mark_sent lookup insert
echo_runs = refl

is_self_echo-memory_example :
    is_self_echo first_bytes 12 (1 ∷ []) (memory first_bytes writes)
    ≡ written_within first_bytes 12 (1 ∷ []) writes
is_self_echo-memory_example = is_self_echo-memory first_bytes 12 (1 ∷ []) writes (omega arith)
