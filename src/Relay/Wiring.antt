-- ===== src/Relay/Wiring.antt =====
-- internal/relay/relay.go on the sockets of internal/socket/multicast.go: the interface that the relay
-- is modelled over, filled by NewMulticastSocket and Close, and by Open of internal/netns/netns.go. The
-- reads and writes of a socket are filled in Relay/Wiring/Live.
pub mod Live
pub mod Echo
mod Tests
use netns_mcast_relay.Socket.Create.Descriptors.{made_in, socket_on}
use netns_mcast_relay.Base.{Option-cases, inl, inr}
use netns_mcast_relay.Base.{
  ℕ, ◌+◌, ◌≤◌, ◌≡◌, refl, sym, ◌∙◌, Option, none, some, List, [], ◌∷◌, Text, Bytes, ℤ, arith, ap,
}
use netns_mcast_relay.Net.{UdpAddr}
use netns_mcast_relay.Netns.Do.{Namespaces}
use netns_mcast_relay.Netns.Handle.{NsHandle, open_at, opened_at}
use netns_mcast_relay.Netns.Handle.{close as close_handle}
use netns_mcast_relay.Socket.Create.{Kernel, MulticastSocket, new_multicast_socket, close}
use netns_mcast_relay.Socket.Create.Open.{Fd, handle_fd, opened_on, Descriptors}
use netns_mcast_relay.Socket.Create.Descriptors.{MadeIn, new_multicast_socket-MadeIn}
use netns_mcast_relay.Socket.Create.Tally.{
  weight, tally, weight_self, tally-erase, held, cost, tally-socket_on, tally-raw_on, cost_le,
  held-close,
}
use netns_mcast_relay.Socket.Create.Group.{new_multicast_socket-IsOfGroup}
use netns_mcast_relay.Relay.Namespace.Sockets.{IsReady, IsFaithful, build_instance-IsReady}
use netns_mcast_relay.Relay.{Platform, Instance}
use netns_mcast_relay.Relay.Namespace.{build_instance, teardown}
use netns_mcast_relay.Relay.Namespace.Descriptors.{
  Ledger, instance_cost, build_instance-Accounted, held-teardown,
}

-- unix.Open, which gives a descriptor, and the reads and writes.
pub record Calls (W U R N : Type 0) : Type 0 where
  pub unix_open : Text → W → Option N × W
  pub read_from : MulticastSocket U R → W → Option (Bytes × UdpAddr × ℤ) × W
  pub write_to_group : MulticastSocket U R → Bytes → Option UdpAddr → ℤ → W → W

module _ {W U R N : Type 0} (k : Kernel W U R) (ns : Namespaces W N) (calls : Calls W U R N) where
  unfoldable pub wired : Platform W (NsHandle N) (MulticastSocket U R)
  wired = record {
    open_namespace = open_at calls.unix_open;
    new_multicast_socket = λ g h. new_multicast_socket k ns g h.handle;
    close_socket = close k;
    close_handle = λ h w. (close_handle ns h w).1;
    socket_group = λ s. s.group;
    read_from = calls.read_from;
    write_to_group = calls.write_to_group;
  }

  module _ (d : Descriptors k ns) where
    open d use {fds, fd_eq}

    -- unix.Open: a handle is one descriptor.
    abbrev pub OpensOne : Type 0
    OpensOne =
        (p : Text) (w : W)
        → fds (calls.unix_open p w).1 ≡ opened_on handle_fd (calls.unix_open p w).0 (fds w)

    abbrev pub fd_of : NsHandle N → Fd U R N
    fd_of h = handle_fd h.handle

    pub fds-open_at :
        OpensOne
        → (p : Text) (w : W)
        → fds (open_at calls.unix_open p w).1
          ≡ opened_on fd_of (open_at calls.unix_open p w).0 (fds w)
    unfolding open_at
    fds-open_at one p w = elim (Option-cases (calls.unix_open p w).0) [
      | inl gone ↦ rw (gone, opened_at) (rw gone at (one p w))
      | inr (fd, found) ↦ rw (found, opened_at) (rw found at (one p w))
    ]

    -- What a failed NewMulticastSocket leaves counts for two at most.
    pub not_made_lem :
        (base : List (Fd U R N)) (made : Option (MulticastSocket U R)) (w : W)
        (i : Option (Fd U R N))
        → MadeIn k ns d base made (none, w)
        → (tally fd_eq i base ≤ held k ns d i w) × (held k ns d i w ≤ tally fd_eq i base + 2)
    not_made_lem base none w i (raw, e) =
        let (lo, hi) = tally-raw_on k ns d raw base i in
        let same = ap (tally fd_eq i) e in (omega (arith, lo, same), omega (arith, hi, same))
    not_made_lem base (some s) w i e =
        let more = tally-socket_on k ns d s base i in
        let two = cost_le k ns d s i in
        let same = ap (tally fd_eq i) e in
        (omega (arith, more, same), omega (arith, more, two, same))

    -- What one that succeeds leaves.
    pub made_lem :
        (base : List (Fd U R N)) (made : Option (MulticastSocket U R)) (s : MulticastSocket U R)
        (w : W)
        → MadeIn k ns d base made (some s, w)
        → fds w ≡ socket_on s base
    made_lem base none s w h = h.1
    made_lem base (some s') s w h = h.1

    -- What the relay relies on, filled, for each descriptor and for all of them together.
    unfoldable pub wired_ledger : OpensOne → Ledger (Option (Fd U R N)) wired
    unfolding wired close_handle tally
    wired_ledger one = record {
      held = held k ns d;
      cost = cost k ns d;
      handle_cost = λ h i. weight fd_eq i (fd_of h);
      leak = 2;
      opened = λ p w e i.
          let more = ap (tally fd_eq i) (rw e at (fds-open_at one p w)) in omega (arith, more);
      not_opened = λ p w e i. ap (tally fd_eq i) (rw e at (fds-open_at one p w));
      made = λ g h w {s} {w'} e i.
          let there =
            made_lem (fds w) (made_in k ns d g h.handle (ns.get_current w)) s w'
              (rw e at (new_multicast_socket-MadeIn k ns d g h.handle w)) in
          let more = ap (tally fd_eq i) there in
          omega (arith, more, tally-socket_on k ns d s (fds w) i);
      not_made = λ g h w {w'} e i.
          not_made_lem (fds w) (made_in k ns d g h.handle (ns.get_current w)) w' i
            (rw e at (new_multicast_socket-MadeIn k ns d g h.handle w));
      closed = held-close k ns d;
      closed_handle = λ h w own i.
          let self = weight_self fd_eq (fd_of h) in
          let is_open = own (some (fd_of h)) in
          let freed = ap (tally fd_eq i) (d.at_close_handle h.handle w) in
          let less = tally-erase fd_eq i (fd_of h) (fds w) (omega (arith, self, is_open)) in
          omega (arith, freed, less);
    }

    -- What a namespace opened when it was added is closed when it is removed, and nothing else: after
    -- the teardown of an instance that was built, each descriptor is open as often as before, and as many
    -- are, if opening a namespace opens one.
    pub held-teardown-build_instance :
        (one : OpensOne) (groups : List UdpAddr) (path : Text) (w : W)
        (inst : Instance (NsHandle N) (MulticastSocket U R)) (w' : W) (i : Option (Fd U R N))
        → build_instance wired groups path w ≡ (some inst, w')
        → tally fd_eq i (fds (teardown wired inst w')) ≡ tally fd_eq i (fds w)
    unfolding wired_ledger
    held-teardown-build_instance one groups path w inst w' i e =
        let l = wired_ledger one in
        let built = rw e at (build_instance-Accounted wired l groups path w) in
        let torn = held-teardown wired l inst w' (λ x. let b = built x in omega (arith, b)) i in
        let b = built i in omega (arith, b, torn)

  wired-IsFaithful : IsFaithful wired
  unfolding wired
  wired-IsFaithful g h w s w' e = rw e at (new_multicast_socket-IsOfGroup k ns g h.handle w)

  -- An instance that was built on the sockets of NewMulticastSocket has one for every configured
  -- group, under the key that packets of the group are looked up by; it bears its path, is live, and
  -- its queue is empty.
  pub build_instance-wired :
      (groups : List UdpAddr) (path : Text) (w : W)
      → IsReady wired path groups (build_instance wired groups path w)
  build_instance-wired = build_instance-IsReady wired wired-IsFaithful
