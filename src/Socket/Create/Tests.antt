-- ===== src/Socket/Create/Tests.antt =====
-- NewMulticastSocket at a concrete system: a state is the list of open descriptors. The read buffer
-- of connection 13 cannot be set, and interface 4 cannot be joined.
use netns_mcast_relay.Socket.Create.Descriptors.{made_in}
use netns_mcast_relay.Base.{ap, eqb_iff, ◌↔◌, Eq, Bool, List}
use netns_mcast_relay.Base.{ℕ, ◌+◌, ◌≡◌, refl, true, false, not, some, [], ◌∷◌, ◌==◌, nat_eq, pos}
use netns_mcast_relay.Net.{UdpAddr}
use netns_mcast_relay.Netns.Do.{Namespaces, do_in}
use netns_mcast_relay.Socket.Create.{
  Interface, Kernel, usable, first_loopback, join_all, open_raw, set_buffers, configure, create,
  new_multicast_socket,
}
use netns_mcast_relay.Socket.Create.Open.{Fd, conn_fd, raw_fd, handle_fd, erase, Descriptors}
use netns_mcast_relay.Socket.Create.Descriptors.{MadeIn, new_multicast_socket-MadeIn}

abbrev pub card : ℕ → Interface
card n = record { index = n; is_up = true; is_loopback = false; is_multicast = true }

abbrev pub lo : Interface
lo = record { index = 1; is_up = true; is_loopback = true; is_multicast = false }

abbrev pub mdns : UdpAddr
mdns = record { ip = 224 ∷ 0 ∷ 0 ∷ 251 ∷ []; port = pos 5353; zone = [] }

abbrev pub Fds : Type 0
Fds = List (Fd ℕ ℕ ℕ)

abbrev pub fd_beq : Fd ℕ ℕ ℕ → Fd ℕ ℕ ℕ → Bool
fd_beq (conn_fd a) (conn_fd b) = a == b
fd_beq (conn_fd a) (raw_fd b) = false
fd_beq (conn_fd a) (handle_fd b) = false
fd_beq (raw_fd a) (conn_fd b) = false
fd_beq (raw_fd a) (raw_fd b) = a == b
fd_beq (raw_fd a) (handle_fd b) = false
fd_beq (handle_fd a) (conn_fd b) = false
fd_beq (handle_fd a) (raw_fd b) = false
fd_beq (handle_fd a) (handle_fd b) = a == b

pub fd_beq_iff : (x y : Fd ℕ ℕ ℕ) → (fd_beq x y ≡ true) ↔ (x ≡ y)
fd_beq_iff (conn_fd a) (conn_fd b) = (λ h. ap conn_fd ((eqb_iff a b).0 h), λ e. (eqb_iff a b).1 cc)
fd_beq_iff (conn_fd a) (raw_fd b) = (λ h. cc, λ e. cc)
fd_beq_iff (conn_fd a) (handle_fd b) = (λ h. cc, λ e. cc)
fd_beq_iff (raw_fd a) (conn_fd b) = (λ h. cc, λ e. cc)
fd_beq_iff (raw_fd a) (raw_fd b) = (λ h. ap raw_fd ((eqb_iff a b).0 h), λ e. (eqb_iff a b).1 cc)
fd_beq_iff (raw_fd a) (handle_fd b) = (λ h. cc, λ e. cc)
fd_beq_iff (handle_fd a) (conn_fd b) = (λ h. cc, λ e. cc)
fd_beq_iff (handle_fd a) (raw_fd b) = (λ h. cc, λ e. cc)
fd_beq_iff (handle_fd a) (handle_fd b) =
    (λ h. ap handle_fd ((eqb_iff a b).0 h), λ e. (eqb_iff a b).1 cc)

abbrev pub fd_Eq : Eq (Fd ℕ ℕ ℕ)
fd_Eq = record { beq = fd_beq; beq_iff = fd_beq_iff }

abbrev pub kernel : Kernel Fds ℕ ℕ
kernel = record {
  interfaces = λ w. (some (lo ∷ card 2 ∷ card 3 ∷ []), w);
  listen_multicast_udp = λ i g w. (some (10 + i.index), conn_fd (10 + i.index) ∷ w);
  join_group = λ c i g w. (not (i.index == 4), w);
  enable_loopback = λ c w. (true, w);
  set_control_message = λ c w. (true, w);
  listen_ip = λ w. (some 20, raw_fd 20 ∷ w);
  new_raw_conn = λ r w. (true, w);
  set_multicast_interface = λ r i w. (true, w);
  set_multicast_loopback = λ r w. (true, w);
  set_read_buffer = λ c w. (not (c == 13), w);
  set_write_buffer = λ c w. (true, w);
  close_conn = λ c w. erase fd_Eq (conn_fd c) w;
  close_raw = λ r w. erase fd_Eq (raw_fd r) w;
}

abbrev pub namespaces : Namespaces Fds ℕ
namespaces = record {
  get_current = λ w. (some 0, handle_fd 0 ∷ w);
  set_namespace = λ n w. (true, w);
  close_handle = λ n w. (true, erase fd_Eq (handle_fd n) w);
}

abbrev pub descriptors : Descriptors kernel namespaces
descriptors = record {
  fd_eq = fd_Eq;
  fds = λ w. w;
  at_interfaces = λ w. refl;
  at_listen_multicast_udp = λ i g w. refl;
  at_join_group = λ c i g w. refl;
  at_enable_loopback = λ c w. refl;
  at_set_control_message = λ c w. refl;
  at_listen_ip = λ w. refl;
  at_new_raw_conn = λ r w. refl;
  at_set_multicast_interface = λ r i w. refl;
  at_set_multicast_loopback = λ r w. refl;
  at_set_read_buffer = λ c w. refl;
  at_set_write_buffer = λ c w. refl;
  at_close_conn = λ c w. refl;
  at_close_raw = λ r w. refl;
  at_get_current = λ w. refl;
  at_set_namespace = λ n w. refl;
  at_close_handle = λ n w. refl;
}

usable_runs : usable (lo ∷ card 2 ∷ card 3 ∷ []) ≡ card 2 ∷ card 3 ∷ []
unfolding usable
usable_runs = refl

fallback_runs : usable (lo ∷ lo ∷ []) ≡ lo ∷ []
unfolding usable first_loopback
fallback_runs = refl

-- A handle of the host's namespace is open.
abbrev before : Fds
before = handle_fd 7 ∷ []

create_runs :
    (new_multicast_socket kernel namespaces mdns 7 before).1
    ≡ raw_fd 20 ∷ conn_fd 12 ∷ handle_fd 7 ∷ []
unfolding new_multicast_socket do_in create usable join_all open_raw set_buffers erase
create_runs = refl

-- The finding: the read buffer of connection 13 cannot be set, and the raw connection stays open.
leak_runs : (configure kernel mdns (card 3) [] 13 (conn_fd 13 ∷ [])).1 ≡ raw_fd 20 ∷ []
unfolding join_all open_raw set_buffers erase
leak_runs = refl

new_multicast_socket-MadeIn_example :
    MadeIn kernel namespaces descriptors before
      (made_in kernel namespaces descriptors mdns 7 (namespaces.get_current before))
      (new_multicast_socket kernel namespaces mdns 7 before)
new_multicast_socket-MadeIn_example =
    new_multicast_socket-MadeIn kernel namespaces descriptors mdns 7 before
