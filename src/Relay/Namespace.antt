-- ===== src/Relay/Namespace.antt =====
-- internal/relay/relay.go: buildInstance and teardown. Their goroutines are started and awaited; the
-- work that these do is in Relay/Broadcast.
pub mod Descriptors
pub mod Sockets
use netns_mcast_relay.Base.{
  ℕ, Bool, true, false, Option, none, some, List, [], ◌∷◌, ◌++◌, Text, Map, insert, if◌then◌else◌,
}
use netns_mcast_relay.Net.{UdpAddr}
use netns_mcast_relay.Relay.{
  GroupAddrKey, group_key_eq, group_key_from_udp_addr, Platform, Instance,
}

module _ {W H S : Type 0} (os : Platform W H S) where
  -- `for _, s := range sockets { s.Close() }`
  unfoldable pub close_sockets : List S → W → W
  close_sockets [] w = w
  close_sockets (s ∷ ss) w = close_sockets ss (os.close_socket s w)

  -- The loop over the groups; `none` after the rollback.
  unfoldable pub open_sockets :
      H → List UdpAddr → List S → Map GroupAddrKey S → W → Option (List S × Map GroupAddrKey S) × W
  unfolding close_sockets
  open_sockets h [] ss by_group w = (some (ss, by_group), w)
  open_sockets h (g ∷ gs) ss by_group w =
      let (made, w') = os.new_multicast_socket g h w in
      elim made [
        | none ↦ (none, os.close_handle h (close_sockets ss w'))
        | some s ↦
            open_sockets h gs (ss ++ s ∷ [])
              (insert (group_key_from_udp_addr (some (os.socket_group s))) s by_group) w'
      ]

  abbrev pub instance_of :
      Text → H → Option (List S × Map GroupAddrKey S) × W → Option (Instance H S) × W
  instance_of path h (none, w) = (none, w)
  instance_of path h (some (ss, by_group), w) = (
    some (record {
      path = path;
      handle = h;
      sockets = ss;
      sockets_by_group = by_group;
      send_ch = [];
      cancelled = false;
    }),
    w,
  )

  unfoldable pub build_instance : List UdpAddr → Text → W → Option (Instance H S) × W
  unfolding open_sockets
  build_instance groups path w =
      let (opened, w') = os.open_namespace path w in
      elim opened [
        | none ↦ (none, w')
        | some h ↦ instance_of path h (open_sockets h groups [] [] w')
      ]

  unfoldable pub teardown : Instance H S → W → W
  unfolding close_sockets
  teardown inst w = os.close_handle inst.handle (close_sockets inst.sockets w)
