-- ===== src/Relay/Wiring/Tests.antt =====
-- The relay on the sockets of NewMulticastSocket, at the concrete system of Socket/Create/Tests.
use mathlib.Core.Option
use netns_mcast_relay.Base.{Bytes, pos, true, lookup, arith, text_eq, int_eq}
use netns_mcast_relay.Net.{ip_array, to4}
use netns_mcast_relay.Middleware.{Packet}
use netns_mcast_relay.Netns.Do.{Namespaces}
use netns_mcast_relay.Socket.Create.{Kernel}
use netns_mcast_relay.Socket.Echo.{RecentTx, mark_sent, is_self_echo}
use netns_mcast_relay.Socket.Transfer.{
  datagram, read_loop, read_from, Wire, write_each, write_to_group,
}
use netns_mcast_relay.Relay.{Platform, group_key_eq}
use netns_mcast_relay.Relay.Broadcast.{receive_one, send_one}
use netns_mcast_relay.Relay.Wiring.Live.{Memory, Inbox, read, write, live}
use netns_mcast_relay.Relay.Wiring.Echo.{Differs, receive_one-send_one}
use netns_mcast_relay.Base.{ℕ, ◌≡◌, refl, false, insert, none, some, [], ◌∷◌, Text, codes}
use netns_mcast_relay.Netns.Do.{do_in}
use netns_mcast_relay.Netns.Handle.{NsHandle, open_at}
use netns_mcast_relay.Socket.Create.{
  MulticastSocket, usable, join_all, open_raw, set_buffers, create, new_multicast_socket,
}
use netns_mcast_relay.Socket.Create.Tests.{Fds, fd_Eq, kernel, namespaces, descriptors, mdns}
use netns_mcast_relay.Socket.Create.Open.{raw_fd, conn_fd, handle_fd, erase}
use netns_mcast_relay.Socket.Create.Tally.{tally}
use netns_mcast_relay.Socket.Create.{close}
use netns_mcast_relay.Relay.Namespace.{close_sockets}
use netns_mcast_relay.Netns.Handle.{close as close_handle}
use netns_mcast_relay.Relay.{Instance, group_key_from_udp_addr}
use netns_mcast_relay.Relay.Namespace.{build_instance, teardown}
use netns_mcast_relay.Relay.Wiring.{Calls, wired, OpensOne, held-teardown-build_instance}

abbrev calls : Calls Fds ℕ ℕ ℕ
calls = record {
  unix_open = λ p w. (some 7, handle_fd 7 ∷ w);
  read_from = λ s w. (none, w);
  write_to_group = λ s b a t w. w;
}

abbrev opens_one : OpensOne kernel namespaces calls descriptors
opens_one = λ p w. refl

abbrev guest : Text
guest = codes "/proc/7/ns/net"

abbrev socket : MulticastSocket ℕ ℕ
socket = record {
  conn = 12;
  raw_conn = some 20;
  group = mdns;
  interface_index = 2;
  interface_indices = 2 ∷ 3 ∷ [];
}

abbrev built : Instance (NsHandle ℕ) (MulticastSocket ℕ ℕ)
built = record {
  path = guest;
  handle = record { handle = 7; path = guest };
  sockets = socket ∷ [];
  sockets_by_group = (group_key_from_udp_addr (some mdns), socket) ∷ [];
  send_ch = [];
  cancelled = false;
}

abbrev opened : Fds
opened = raw_fd 20 ∷ conn_fd 12 ∷ handle_fd 7 ∷ []

build_runs :
    build_instance (wired kernel namespaces calls) (mdns ∷ []) guest [] ≡ (some built, opened)
unfolding build_instance wired new_multicast_socket do_in create usable join_all open_raw
    set_buffers insert open_at erase
build_runs = refl

teardown_runs : teardown (wired kernel namespaces calls) built opened ≡ []
unfolding teardown wired close_sockets close erase close_handle
teardown_runs = refl

held-teardown-build_instance_example :
    tally fd_Eq (some (conn_fd 12)) (teardown (wired kernel namespaces calls) built opened)
    ≡ tally fd_Eq (some (conn_fd 12)) []
held-teardown-build_instance_example =
    held-teardown-build_instance kernel namespaces calls descriptors opens_one (mdns ∷ []) guest []
      built opened (some (conn_fd 12)) build_runs

-- A system whose state is the memory of its one socket. At time 9 the relay's own payload and another
-- one have arrived.
abbrev quiet_kernel : Kernel RecentTx ℕ ℕ
quiet_kernel = record {
  interfaces = λ w. (none, w);
  listen_multicast_udp = λ i g w. (none, w);
  join_group = λ c i g w. (true, w);
  enable_loopback = λ c w. (true, w);
  set_control_message = λ c w. (true, w);
  listen_ip = λ w. (none, w);
  new_raw_conn = λ r w. (true, w);
  set_multicast_interface = λ r i w. (true, w);
  set_multicast_loopback = λ r w. (true, w);
  set_read_buffer = λ c w. (true, w);
  set_write_buffer = λ c w. (true, w);
  close_conn = λ c w. w;
  close_raw = λ r w. w;
}

abbrev quiet_namespaces : Namespaces RecentTx ℕ
quiet_namespaces = record {
  get_current = λ w. (some 1, w);
  set_namespace = λ n w. (true, w);
  close_handle = λ n w. (true, w);
}

abbrev quiet_wire : Wire RecentTx ℕ ℕ
quiet_wire = record {
  set_write_deadline = λ c w. (true, w);
  set_multicast_ttl = λ c ttl w. (true, w);
  write_to = λ c b i g w. (some 1, w);
  set_raw_write_deadline = λ r w. (true, w);
  write_raw = λ r ttl s g b i w. (true, w);
}

abbrev one_memory : Memory RecentTx ℕ
one_memory = record { recent = λ c w. w; remember = λ c m w. m; recent-remember = λ c m w. refl }

abbrev loud_inbox : Inbox RecentTx ℕ
loud_inbox = record {
  clock = λ w. 5;
  arm = λ c w. true;
  arrivals =
      λ c w. (9, datagram (7 ∷ []) (some mdns) none) ∷ (9, datagram (8 ∷ []) (some mdns) none) ∷ [];
  after_read = λ c w. w;
}

abbrev fake_md5 : Bytes → Bytes
fake_md5 b = b

abbrev quiet_sockets : Platform RecentTx (NsHandle ℕ) (MulticastSocket ℕ ℕ)
quiet_sockets =
    wired quiet_kernel quiet_namespaces
      (live fake_md5 quiet_wire one_memory loud_inbox (λ p w. (some 7, w)))

abbrev forwarded : Packet
forwarded = record {
  payload = some (7 ∷ []);
  source = none;
  group = some mdns;
  ttl = pos 255;
  source_path = [];
}

abbrev after_send : RecentTx
after_send = send_one quiet_sockets built forwarded none

received_runs :
    Option.map (λ p. p.payload) (receive_one quiet_sockets socket guest after_send).0
    ≡ some (some (8 ∷ []))
unfolding send_one receive_one wired live read write write_to_group mark_sent write_each lookup
    is_self_echo read_from read_loop group_key_from_udp_addr ip_array to4 insert
received_runs = refl

receive_one-send_one_example :
    Differs (7 ∷ []) (receive_one quiet_sockets socket guest after_send).0
unfolding lookup group_key_from_udp_addr ip_array to4
receive_one-send_one_example =
    receive_one-send_one fake_md5 quiet_kernel quiet_namespaces quiet_wire one_memory loud_inbox
      (λ p w. (some 7, w)) built forwarded socket (7 ∷ []) (224 ∷ 0 ∷ 0 ∷ 251 ∷ []) guest none
      after_send refl refl refl refl (omega arith)
