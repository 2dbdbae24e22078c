-- ===== src/Socket/Create/Group.antt =====
-- internal/socket/multicast.go: the group of a socket that NewMulticastSocket returns.
use netns_mcast_relay.Base.{
  ◌≡◌, Option, none, some, List, [], ◌∷◌, arith, Option-cases, Bool-cases, inl, inr,
}
use netns_mcast_relay.Net.{UdpAddr}
use netns_mcast_relay.Netns.Do.{Namespaces, do_in, run_in, finish}
use netns_mcast_relay.Socket.Create.{
  Interface, Kernel, MulticastSocket, usable, configure, create_on, create, new_multicast_socket,
}

module _ {W U R : Type 0} (k : Kernel W U R) where
  -- A socket, if there is one, is of the group.
  abbrev pub IsOfGroup : UdpAddr → Option (MulticastSocket U R) × W → Type 0
  IsOfGroup g (none, w) = Unit
  IsOfGroup g (some s, w) = s.group ≡ g

  configure-IsOfGroup :
      (g : UdpAddr) (i : Interface) (is : List Interface) (c : U) (w : W)
      → IsOfGroup g (configure k g i is c w)
  configure-IsOfGroup g i is c w = ground arith

  create_on-IsOfGroup :
      (g : UdpAddr) (is : List Interface) (w : W) → IsOfGroup g (create_on k g is w)
  create_on-IsOfGroup g [] w = tt
  create_on-IsOfGroup g (i ∷ is) w = elim (Option-cases (k.listen_multicast_udp i g w).0) [
    | inl gone ↦ rw (gone, create_on) tt
    | inr (c, got) ↦
        rw (got, create_on) (configure-IsOfGroup g i is c (k.listen_multicast_udp i g w).1)
  ]

  create-IsOfGroup : (g : UdpAddr) (w : W) → IsOfGroup g (create k g w)
  unfolding create
  create-IsOfGroup g w = elim (Option-cases (k.interfaces w).0) [
    | inl gone ↦ rw (gone, create) tt
    | inr (is, got) ↦ rw (got, create) (create_on-IsOfGroup g (usable is) (k.interfaces w).1)
  ]

  module _ {N : Type 0} (ns : Namespaces W N) where
    finish-IsOfGroup :
        (g : UdpAddr) (saved : N) (r : Option (MulticastSocket U R)) (w : W)
        → IsOfGroup g (r, w)
        → IsOfGroup g (finish ns saved r w)
    finish-IsOfGroup g saved none w h = ground arith
    finish-IsOfGroup g saved (some s) w h = ground arith

    run_in-IsOfGroup :
        (g : UdpAddr) (target saved : N) (w : W)
        → IsOfGroup g (run_in ns target (create k g) saved w)
    run_in-IsOfGroup g target saved w =
        let w1 = (ns.set_namespace target w).1 in
        elim (Bool-cases (ns.set_namespace target w).0) [
          | inl switched ↦
              rw (switched, run_in)
                (finish-IsOfGroup g saved (create k g w1).0 (create k g w1).1
                  (create-IsOfGroup g w1))
          | inr stayed ↦ rw (stayed, run_in) tt
        ]

    pub new_multicast_socket-IsOfGroup :
        (g : UdpAddr) (target : N) (w : W) → IsOfGroup g (new_multicast_socket k ns g target w)
    unfolding new_multicast_socket do_in
    new_multicast_socket-IsOfGroup g target w =
        let w1 = (ns.get_current w).1 in
        elim (Option-cases (ns.get_current w).0) [
          | inl gone ↦ rw (gone, do_in, new_multicast_socket) tt
          | inr (saved, got) ↦
              rw (got, do_in, new_multicast_socket) (run_in-IsOfGroup g target saved w1)
        ]
