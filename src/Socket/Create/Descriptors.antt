-- ===== src/Socket/Create/Descriptors.antt =====
-- internal/socket/multicast.go: the file descriptors that NewMulticastSocket leaves open.
use netns_mcast_relay.Base.{Bool}
use netns_mcast_relay.Base.{◌&&◌}
use netns_mcast_relay.Base.{
  ◌≡◌, refl, ap, ◌∙◌, Option, none, some, List, [], ◌∷◌, Option-cases, Bool-cases, inl, inr, subst,
  if◌then◌else◌, arith,
}
use netns_mcast_relay.Net.{UdpAddr}
use netns_mcast_relay.Netns.Do.{Namespaces, do_in, run_in, finish}
use netns_mcast_relay.Socket.Create.{
  Interface, Kernel, MulticastSocket, usable, join_all, prepare_raw, open_raw, set_buffers,
  configure, create_on, create, new_multicast_socket,
}
use netns_mcast_relay.Socket.Create.Open.{
  Fd, conn_fd, raw_fd, handle_fd, erase, erase_here, erase_past, opened_on, Descriptors,
}

-- The descriptors of a raw connection, if there is one, and of a socket, over others.
abbrev pub raw_on : {U R N : Type 0} → Option R → List (Fd U R N) → List (Fd U R N)
raw_on raw base = opened_on raw_fd raw base

abbrev pub socket_on : {U R N : Type 0} → MulticastSocket U R → List (Fd U R N) → List (Fd U R N)
socket_on s base = raw_on s.raw_conn (conn_fd s.conn ∷ base)

module _ {W U R N : Type 0} (k : Kernel W U R) (ns : Namespaces W N) (d : Descriptors k ns) where
  open d use {fds, fd_eq}

  closed_conn :
      (c : U) (raw : Option R) (base : List (Fd U R N)) (w : W)
      → fds w ≡ raw_on raw (conn_fd c ∷ base)
      → fds (k.close_conn c w) ≡ raw_on raw base
  closed_conn c none base w h =
      d.at_close_conn c w ∙ ap (erase fd_eq (conn_fd c)) h ∙ erase_here fd_eq (conn_fd c) base
  closed_conn c (some r) base w h =
      d.at_close_conn c w
      ∙ ap (erase fd_eq (conn_fd c)) h
      ∙ erase_past fd_eq (conn_fd c) (raw_fd r) (conn_fd c ∷ base) (λ e. cc)
      ∙ ap (λ l. raw_fd r ∷ l) (erase_here fd_eq (conn_fd c) base)

  closed_raw :
      (r : R) (base : List (Fd U R N)) (w : W)
      → fds w ≡ raw_fd r ∷ base
      → fds (k.close_raw r w) ≡ base
  closed_raw r base w h =
      d.at_close_raw r w ∙ ap (erase fd_eq (raw_fd r)) h ∙ erase_here fd_eq (raw_fd r) base

  closed_handle :
      (n : N) (base : List (Fd U R N)) (w : W)
      → fds w ≡ handle_fd n ∷ base
      → fds (ns.close_handle n w).1 ≡ base
  closed_handle n base w h =
      d.at_close_handle n w ∙ ap (erase fd_eq (handle_fd n)) h ∙ erase_here fd_eq (handle_fd n) base

  -- The saved handle lies under what the closure has opened.
  erase-raw_on :
      (n : N) (raw : Option R) (base : List (Fd U R N))
      → erase fd_eq (handle_fd n) (raw_on raw base) ≡ raw_on raw (erase fd_eq (handle_fd n) base)
  erase-raw_on n none base = refl
  erase-raw_on n (some r) base = erase_past fd_eq (handle_fd n) (raw_fd r) base (λ e. cc)

  -- A connection that cannot join an interface is closed.
  fds-join_all :
      (c : U) (g : UdpAddr) (is : List Interface) (base : List (Fd U R N)) (w : W)
      → fds w ≡ conn_fd c ∷ base
      → fds (join_all k c g is w).1 ≡ (if (join_all k c g is w).0 then conn_fd c ∷ base else base)
  unfolding join_all
  fds-join_all c g [] base w h = h
  fds-join_all c g (i ∷ is) base w h =
      let w' = (k.join_group c i g w).1 in
      let same : fds w' ≡ conn_fd c ∷ base = d.at_join_group c i g w ∙ h in
      elim (Bool-cases (k.join_group c i g w).0) [
        | inl joined ↦ rw (joined, join_all) (fds-join_all c g is base w' same)
        | inr refused ↦ rw (refused, join_all) (closed_conn c none base w' same)
      ]

  fds-prepare_raw :
      (r : R) (i : Interface) (base : List (Fd U R N)) (w : W)
      → fds w ≡ raw_fd r ∷ base
      → fds (prepare_raw k r i w).1 ≡ raw_on (prepare_raw k r i w).0 base
  fds-prepare_raw r i base w h =
      let w1 = (k.new_raw_conn r w).1 in
      let w2 = (k.set_multicast_interface r i w1).1 in
      let w3 = (k.set_multicast_loopback r w2).1 in
      let h1 : fds w1 ≡ raw_fd r ∷ base = d.at_new_raw_conn r w ∙ h in
      let h2 : fds w2 ≡ raw_fd r ∷ base = d.at_set_multicast_interface r i w1 ∙ h1 in
      let h3 : fds w3 ≡ raw_fd r ∷ base = d.at_set_multicast_loopback r w2 ∙ h2 in
      ground (arith, h3, closed_raw r base w1 h1, closed_raw r base w2 h2, closed_raw r base w3 h3)

  fds-open_raw :
      (i : Interface) (base : List (Fd U R N)) (w : W)
      → fds w ≡ base
      → fds (open_raw k i w).1 ≡ raw_on (open_raw k i w).0 base
  unfolding open_raw
  fds-open_raw i base w h =
      let w' = (k.listen_ip w).1 in
      let e : fds w' ≡ raw_on (k.listen_ip w).0 base =
        d.at_listen_ip w ∙ ap (raw_on (k.listen_ip w).0) h in
      elim (Option-cases (k.listen_ip w).0) [
        | inl gone ↦ rw (gone, open_raw) (rw gone at e)
        | inr (r, got) ↦ rw (got, open_raw) (fds-prepare_raw r i base w' (rw got at e))
      ]

  -- The finding: a buffer size that cannot be set closes the connection and not the raw one.
  fds-set_buffers :
      (c : U) (raw : Option R) (base : List (Fd U R N)) (w : W)
      → fds w ≡ raw_on raw (conn_fd c ∷ base)
      → fds (set_buffers k c w).1
        ≡ (if (set_buffers k c w).0 then raw_on raw (conn_fd c ∷ base) else raw_on raw base)
  unfolding set_buffers
  fds-set_buffers c raw base w h =
      let w1 = (k.set_read_buffer c w).1 in
      let w2 = (k.set_write_buffer c w1).1 in
      let h1 : fds w1 ≡ raw_on raw (conn_fd c ∷ base) = d.at_set_read_buffer c w ∙ h in
      let h2 : fds w2 ≡ raw_on raw (conn_fd c ∷ base) = d.at_set_write_buffer c w1 ∙ h1 in
      elim (Bool-cases (k.set_read_buffer c w).0) [
        | inr unread ↦ rw (unread, set_buffers) (closed_conn c raw base w1 h1)
        | inl read ↦ elim (Bool-cases (k.set_write_buffer c w1).0) [
          | inr unwritten ↦ rw (read, unwritten, set_buffers) (closed_conn c raw base w2 h2)
          | inl written ↦ rw (read, written, set_buffers) h2
        ]
      ]

  -- What the attempt to make a socket leaves, over what was open before: the socket's descriptors, or,
  -- if it fails, none or a raw connection.
  abbrev pub Made : List (Fd U R N) → Option (MulticastSocket U R) × W → Type 0
  Made base (none, w) = (raw : Option R) × (fds w ≡ raw_on raw base)
  Made base (some s, w) = fds w ≡ socket_on s base

  configure-Made :
      (g : UdpAddr) (i : Interface) (is : List Interface) (c : U) (base : List (Fd U R N)) (w : W)
      → fds w ≡ conn_fd c ∷ base
      → Made base (configure k g i is c w)
  configure-Made g i is c base w h =
      let w1 = (join_all k c g is w).1 in
      let w2 = (k.enable_loopback c w1).1 in
      let w3 = (k.set_control_message c w2).1 in
      let (raw, w4) = open_raw k i w3 in
      let joined = fds-join_all c g is base w h in
      elim (Bool-cases (join_all k c g is w).0) [
        | inr left_out ↦ rw (left_out, configure) (none, rw left_out at joined)
        | inl in_all ↦
            let h2 : fds w2 ≡ conn_fd c ∷ base =
              d.at_enable_loopback c w1 ∙ (rw in_all at joined) in
            let h3 : fds w3 ≡ conn_fd c ∷ base = d.at_set_control_message c w2 ∙ h2 in
            let buffered =
              fds-set_buffers c raw base w4 (fds-open_raw i (conn_fd c ∷ base) w3 h3) in
            elim (Bool-cases (k.enable_loopback c w1).0) [
              | inr unlooped ↦
                  rw (in_all, unlooped, configure) (none, closed_conn c none base w2 h2)
              | inl looped ↦ elim (Bool-cases (k.set_control_message c w2).0) [
                | inr bare ↦
                    rw (in_all, looped, bare, configure) (none, closed_conn c none base w3 h3)
                | inl informed ↦ elim (Bool-cases (set_buffers k c w4).0) [
                  | inr small ↦
                      rw (in_all, looped, informed, small, configure) (raw, rw small at buffered)
                  | inl large ↦
                      rw (in_all, looped, informed, large, configure) (rw large at buffered)
                ]
              ]
            ]
      ]

  create_on-Made : (g : UdpAddr) (is : List Interface) (w : W) → Made (fds w) (create_on k g is w)
  create_on-Made g [] w = (none, refl)
  create_on-Made g (i ∷ is) w =
      let w' = (k.listen_multicast_udp i g w).1 in
      let e = d.at_listen_multicast_udp i g w in
      elim (Option-cases (k.listen_multicast_udp i g w).0) [
        | inl gone ↦ rw (gone, create_on) (none, rw gone at e)
        | inr (c, got) ↦ rw (got, create_on) (configure-Made g i is c (fds w) w' (rw got at e))
      ]

  create-Made :
      (g : UdpAddr) (base : List (Fd U R N)) (w : W) → fds w ≡ base → Made base (create k g w)
  unfolding create
  create-Made g base w h =
      let w' = (k.interfaces w).1 in
      let same : fds w' ≡ base = d.at_interfaces w ∙ h in
      elim (Option-cases (k.interfaces w).0) [
        | inl gone ↦ rw (gone, create) (none, same)
        | inr (is, got) ↦
            rw (got, create)
              (subst (λ l. Made l (create_on k g (usable is) w')) same
                (create_on-Made g (usable is) w'))
      ]

  -- After Do, where the closure, if it ran, made `made`: the descriptors of a socket that was made, also
  -- when Do then fails and it is not returned, or else none or a raw connection.
  abbrev pub MadeIn :
      List (Fd U R N) → Option (MulticastSocket U R) → Option (MulticastSocket U R) × W → Type 0
  MadeIn base none (none, w) = (raw : Option R) × (fds w ≡ raw_on raw base)
  MadeIn base (some s) (none, w) = fds w ≡ socket_on s base
  MadeIn base made (some s, w) = (made ≡ some s) × (fds w ≡ socket_on s base)

  -- What the closure makes, in the state in which Do runs it, if the switch to the namespace succeeds.
  abbrev pub made_in : UdpAddr → N → Option N × W → Option (MulticastSocket U R)
  made_in g target (none, w) = none
  made_in g target (some saved, w) =
      if (ns.set_namespace target w).0 then (create k g (ns.set_namespace target w).1).0 else none

  -- Both deferred calls of Do succeed.
  abbrev finished : N → W → Bool
  finished saved w =
      (ns.set_namespace saved w).0 && (ns.close_handle saved (ns.set_namespace saved w).1).0

  -- The deferred calls of Do free the saved handle.
  fds-finish :
      (saved : N) (r : Option (MulticastSocket U R)) (w : W)
      → fds (finish ns saved r w).1 ≡ erase fd_eq (handle_fd saved) (fds w)
  fds-finish saved r w =
      let w1 = (ns.set_namespace saved w).1 in
      d.at_close_handle saved w1 ∙ ap (erase fd_eq (handle_fd saved)) (d.at_set_namespace saved w)

  freed :
      (saved : N) (raw : Option R) (base : List (Fd U R N)) (r : Option (MulticastSocket U R))
      (w : W)
      → fds w ≡ raw_on raw (handle_fd saved ∷ base)
      → fds (finish ns saved r w).1 ≡ raw_on raw base
  freed saved raw base r w h =
      fds-finish saved r w
      ∙ ap (erase fd_eq (handle_fd saved)) h
      ∙ erase-raw_on saved raw (handle_fd saved ∷ base)
      ∙ ap (raw_on raw) (erase_here fd_eq (handle_fd saved) base)

  freed_socket :
      (saved : N) (s : MulticastSocket U R) (base : List (Fd U R N))
      (r : Option (MulticastSocket U R)) (w : W)
      → fds w ≡ socket_on s (handle_fd saved ∷ base)
      → fds (finish ns saved r w).1 ≡ socket_on s base
  freed_socket saved s base r w h =
      fds-finish saved r w
      ∙ ap (erase fd_eq (handle_fd saved)) h
      ∙ erase-raw_on saved s.raw_conn (conn_fd s.conn ∷ handle_fd saved ∷ base)
      ∙ ap (raw_on s.raw_conn) (
          erase_past fd_eq (handle_fd saved) (conn_fd s.conn) (handle_fd saved ∷ base) (λ e. cc)
          ∙ ap (λ l. conn_fd s.conn ∷ l) (erase_here fd_eq (handle_fd saved) base))

  finish-MadeIn :
      (base : List (Fd U R N)) (saved : N) (r : Option (MulticastSocket U R)) (w : W)
      → Made (handle_fd saved ∷ base) (r, w)
      → MadeIn base r (finish ns saved r w)
  finish-MadeIn base saved none w (raw, h) =
      let e = freed saved raw base none w h in
      elim (Bool-cases (finished saved w)) [
        | inl fine ↦ rw fine (raw, e)
        | inr bad ↦ rw bad (raw, e)
      ]
  finish-MadeIn base saved (some s) w h =
      let e = freed_socket saved s base (some s) w h in
      elim (Bool-cases (finished saved w)) [ inl fine ↦ rw fine (refl, e) | inr bad ↦ rw bad e ]

  run_in-MadeIn :
      (base : List (Fd U R N)) (g : UdpAddr) (target saved : N) (w : W)
      → fds w ≡ handle_fd saved ∷ base
      → MadeIn base (made_in g target (some saved, w)) (run_in ns target (create k g) saved w)
  run_in-MadeIn base g target saved w h =
      let w1 = (ns.set_namespace target w).1 in
      let e : fds w1 ≡ handle_fd saved ∷ base = d.at_set_namespace target w ∙ h in
      elim (Bool-cases (ns.set_namespace target w).0) [
        | inl switched ↦
            rw (switched, run_in)
              (finish-MadeIn base saved (create k g w1).0 (create k g w1).1
                (create-Made g (handle_fd saved ∷ base) w1 e))
        | inr stayed ↦ rw (stayed, run_in) (none, closed_handle saved base w1 e)
      ]

  -- NewMulticastSocket accounts for each descriptor on every path through it, the way in and out of
  -- the namespace included. What was open before is open afterwards. Over it are, if the closure made a
  -- socket, that socket's descriptors, whether it is returned or Do fails afterwards, and otherwise
  -- nothing or one raw connection; and nothing but a socket that the closure made is returned.
  pub new_multicast_socket-MadeIn :
      (g : UdpAddr) (target : N) (w : W)
      → MadeIn (fds w) (made_in g target (ns.get_current w)) (new_multicast_socket k ns g target w)
  unfolding new_multicast_socket do_in
  new_multicast_socket-MadeIn g target w =
      let w1 = (ns.get_current w).1 in
      let e = d.at_get_current w in
      elim (Option-cases (ns.get_current w).0) [
        | inl gone ↦ rw (gone, do_in, new_multicast_socket) (none, rw gone at e)
        | inr (saved, got) ↦
            rw (got, do_in, new_multicast_socket)
              (run_in-MadeIn (fds w) g target saved w1 (rw got at e))
      ]
