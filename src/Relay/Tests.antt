-- ===== src/Relay/Tests.antt =====
-- The relay at concrete inputs, over a small platform: a state is the count of open descriptors.
use netns_mcast_relay.Relay.Broadcast.Delivery.{Delivered}
use mathlib.Core.Option
use netns_mcast_relay.Base.{
  ℕ, ◌+◌, ◌-◌, ◌≡◌, refl, false, none, some, List, [], ◌∷◌, Bytes, Text, ◌==◌, text_eq, int_eq, pos,
  codes, arith, lookup, insert, delete, if◌then◌else◌, length,
}
use netns_mcast_relay.Net.{UdpAddr, ip_array}
use netns_mcast_relay.Middleware.{Packet}
use netns_mcast_relay.Relay.{Platform, Instance, group_key_eq, group_key_from_udp_addr}
use netns_mcast_relay.Relay.Namespace.{build_instance}
use netns_mcast_relay.Relay.Namespace.Descriptors.{Ledger, total_cost}
use netns_mcast_relay.Relay.Namespace.Sockets.{IsFaithful}
use netns_mcast_relay.Relay.Coordinator.{
  NsCmdType, ns_cmd_add, ns_cmd_remove, NsCmd, idle, Snapshot, reconcile, on_timer, on_command,
}
use netns_mcast_relay.Relay.Coordinator.Intents.{on_commands, last_intent}
use netns_mcast_relay.Relay.Coordinator.Reconcile.{Settled, on_timer-Settled}
use netns_mcast_relay.Relay.Coordinator.Balance.{Balance, snapshot_cost, reconcile-Balance}
use netns_mcast_relay.Relay.Broadcast.{fan_out}
use netns_mcast_relay.Relay.Broadcast.Delivery.{live_context, lookup-fan_out}
use netns_mcast_relay.Relay.System.{System, new}

abbrev pub first_bytes : Bytes → Bytes
first_bytes b = b

abbrev pub mdns : UdpAddr
mdns = record { ip = 224 ∷ 0 ∷ 0 ∷ 251 ∷ []; port = pos 5353; zone = [] }

abbrev pub ssdp : UdpAddr
ssdp = record { ip = 239 ∷ 255 ∷ 255 ∷ 250 ∷ []; port = pos 1900; zone = [] }

-- No socket can be made on port 9, and the attempt leaves a descriptor open.
abbrev pub small : Platform ℕ Text UdpAddr
small = record {
  open_namespace = λ path w. if path == codes "/gone" then (none, w) else (some path, w + 1);
  new_multicast_socket = λ g h w. if g.port == pos 9 then (none, w + 1) else (some g, w + 2);
  close_socket = λ s w. w - 2;
  close_handle = λ h w. w - 1;
  socket_group = λ s. s;
  read_from = λ s w. (some (7 ∷ [], mdns, pos 255), w);
  write_to_group = λ s bytes source ttl w. w;
}

-- All open descriptors are counted in one.
small_ledger : Ledger (Unit {0}) small
small_ledger = record {
  held = λ x w. w;
  cost = λ s x. 2;
  handle_cost = λ h x. 1;
  leak = 1;
  opened = λ p w e x. ground arith;
  not_opened = λ p w e x. ground arith;
  made = λ g h w e x. ground arith;
  not_made = λ g h w e x. (ground arith, ground arith);
  closed = λ s w h x. let k = h tt in omega (arith, k);
  closed_handle = λ h w k x. let own = k tt in omega (arith, own);
}

small-IsFaithful : IsFaithful small
small-IsFaithful g h w s w' e = ground arith

abbrev pub host : Text
host = codes "/proc/1/ns/net"

abbrev pub guest : Text
guest = codes "/proc/7/ns/net"

abbrev pub member : Text → List Packet → Instance Text UdpAddr
member path queue = record {
  path = path;
  handle = path;
  sockets = mdns ∷ [];
  sockets_by_group = [];
  send_ch = queue;
  cancelled = false;
}

abbrev pub query : Packet
query = record {
  payload = some (1 ∷ []);
  source = none;
  group = some mdns;
  ttl = pos 255;
  source_path = host;
}

abbrev pub two_members : Snapshot small
two_members = (host, member host []) ∷ (guest, member guest []) ∷ []

abbrev pub cmd : NsCmdType → Text → NsCmd
cmd op path = record { op = op; path = path }

-- The host is removed and added again; a guest is removed; a third namespace is added.
abbrev later_commands : List (ℕ × NsCmd)
later_commands =
    (2, cmd ns_cmd_remove guest)
    ∷ (3, cmd ns_cmd_add host)
    ∷ (4, cmd ns_cmd_add (codes "/proc/9/ns/net"))
    ∷ []

abbrev burst : List (ℕ × NsCmd)
burst = (1, cmd ns_cmd_remove host) ∷ later_commands

burst_runs :
    Option.map
      (λ inst. inst.path)
      (lookup
        (codes "/proc/9/ns/net")
        (on_timer small (mdns ∷ ssdp ∷ []) (on_commands burst idle) two_members 6).1)
    ≡ some (codes "/proc/9/ns/net")
unfolding on_timer on_commands on_command idle build_instance lookup insert delete
    group_key_from_udp_addr ip_array
burst_runs = refl

on_timer-Settled_example :
    Settled small
      (mdns ∷ [])
      guest
      (last_intent guest burst)
      (lookup guest two_members)
      (lookup guest (on_timer small (mdns ∷ []) (on_commands burst idle) two_members 6).1)
on_timer-Settled_example = on_timer-Settled small (mdns ∷ []) burst two_members 6 guest

reconcile-Balance_example :
    let r = reconcile small (mdns ∷ []) (on_commands burst idle) two_members 6 in
    Balance small small_ledger
      (length (on_commands burst idle).pending_add)
      (two_members, 6)
      (r.1, r.2)
unfolding small_ledger snapshot_cost total_cost lookup
reconcile-Balance_example =
    reconcile-Balance small small_ledger (mdns ∷ []) (on_commands burst idle) two_members 6
      (refl, (refl, tt)) (λ x. omega arith)

lookup-fan_out_example :
    (lookup guest two_members ≡ none
      → lookup guest (fan_out live_context query two_members 0).0 ≡ none)
    × ((old : Instance Text UdpAddr)
        → lookup guest two_members ≡ some old
        → (new : Instance Text UdpAddr) × (lookup guest (fan_out live_context query two_members 0).0
            ≡ some new)
          × Delivered query guest old new)
lookup-fan_out_example = lookup-fan_out query two_members 0 guest

abbrev pub started : System first_bytes small (mdns ∷ [])
started = new first_bytes small (mdns ∷ []) 3 0
