-- ===== src/Socket/Create.antt =====
-- internal/socket/multicast.go: NewMulticastSocket and Close. The calls of the packages net and
-- x/net/ipv4 are an interface; `true` is a nil error. Errors of Close that the code only reports or
-- throws away are not told apart.
pub mod Open
pub mod Descriptors
pub mod Tally
pub mod Group
pub mod Tests
use netns_mcast_relay.Base.{
  ℕ, zero, suc, Bool, true, false, not, ◌&&◌, Option, none, some, List, [], ◌∷◌, map, keep,
  if◌then◌else◌,
}
use netns_mcast_relay.Net.{UdpAddr}
use netns_mcast_relay.Netns.Do.{Namespaces, do_in}

-- The part of net.Interface that is read.
pub record Interface : Type 0 where
  pub index : ℕ
  pub is_up : Bool
  pub is_loopback : Bool
  pub is_multicast : Bool

abbrev pub is_usable : Interface → Bool
is_usable i = i.is_up && not i.is_loopback && i.is_multicast

-- The fallback: the first loopback interface that is up, and a `break`.
unfoldable pub first_loopback : List Interface → List Interface
first_loopback [] = []
first_loopback (i ∷ is) = if i.is_up && i.is_loopback then i ∷ [] else first_loopback is

-- `if len(usable) == 0`
abbrev pub or_else : List Interface → List Interface → List Interface
or_else [] fallback = fallback
or_else (i ∷ is) fallback = i ∷ is

unfoldable pub usable : List Interface → List Interface
unfolding first_loopback
usable ifaces = or_else (keep is_usable ifaces) (first_loopback ifaces)

-- UDP connections `U` and raw IP connections `R` over a state `W` of the system.
pub record Kernel (W U R : Type 0) : Type 0 where
  pub interfaces : W → Option (List Interface) × W
  pub listen_multicast_udp : Interface → UdpAddr → W → Option U × W
  pub join_group : U → Interface → UdpAddr → W → Bool × W
  pub enable_loopback : U → W → Bool × W
  pub set_control_message : U → W → Bool × W
  pub listen_ip : W → Option R × W
  pub new_raw_conn : R → W → Bool × W
  pub set_multicast_interface : R → Interface → W → Bool × W
  pub set_multicast_loopback : R → W → Bool × W
  pub set_read_buffer : U → W → Bool × W
  pub set_write_buffer : U → W → Bool × W
  pub close_conn : U → W → W
  pub close_raw : R → W → W

-- MulticastSocket, but for the memory of what was sent (Socket/Echo) and the logger. `packetConn` is
-- another view of `conn`.
pub record MulticastSocket (U R : Type 0) : Type 0 where
  pub conn : U
  pub raw_conn : Option R
  pub group : UdpAddr
  pub interface_index : ℕ
  pub interface_indices : List ℕ

module _ {W U R : Type 0} (k : Kernel W U R) where
  -- The loop that joins the other interfaces.
  unfoldable pub join_all : U → UdpAddr → List Interface → W → Bool × W
  join_all conn group [] w = (true, w)
  join_all conn group (i ∷ is) w =
      let (joined, w') = k.join_group conn i group w in
      let rest = join_all conn group is w' in if joined then rest else (false, k.close_conn conn w')

  -- The chain of tests on the raw connection; each failure closes it and goes on without.
  abbrev pub prepare_raw : R → Interface → W → Option R × W
  prepare_raw raw primary w =
      let (made, w1) = k.new_raw_conn raw w in
      let (routed, w2) = k.set_multicast_interface raw primary w1 in
      let (looped, w3) = k.set_multicast_loopback raw w2 in
      if not made
      then (none, k.close_raw raw w1)
      else if not routed
      then (none, k.close_raw raw w2)
      else if not looped
      then (none, k.close_raw raw w3)
      else (some raw, w3)

  unfoldable pub open_raw : Interface → W → Option R × W
  open_raw primary w =
      let (opened, w') = k.listen_ip w in
      elim opened [ none ↦ (none, w') | some raw ↦ prepare_raw raw primary w' ]

  unfoldable pub set_buffers : U → W → Bool × W
  set_buffers conn w =
      let (read, w1) = k.set_read_buffer conn w in
      let (write, w2) = k.set_write_buffer conn w1 in
      if not read
      then (false, k.close_conn conn w1)
      else if not write
      then (false, k.close_conn conn w2)
      else (true, w2)

  -- What follows once the connection is open.
  abbrev pub configure :
      UdpAddr → Interface → List Interface → U → W → Option (MulticastSocket U R) × W
  configure group primary others conn w =
      let (joined, w1) = join_all conn group others w in
      let (looped, w2) = k.enable_loopback conn w1 in
      let (metadata, w3) = k.set_control_message conn w2 in
      let (raw, w4) = open_raw primary w3 in
      let (buffered, w5) = set_buffers conn w4 in
      if not joined
      then (none, w1)
      else if not looped
      then (none, k.close_conn conn w2)
      else if not metadata
      then (none, k.close_conn conn w3)
      else if not buffered
      then (none, w5)
      else (
        some (record {
          conn = conn;
          raw_conn = raw;
          group = group;
          interface_index = primary.index;
          interface_indices = map (λ i. i.index) (primary ∷ others);
        }),
        w5,
      )

  abbrev pub create_on : UdpAddr → List Interface → W → Option (MulticastSocket U R) × W
  create_on group [] w = (none, w)
  create_on group (primary ∷ others) w =
      let (opened, w') = k.listen_multicast_udp primary group w in
      elim opened [ none ↦ (none, w') | some conn ↦ configure group primary others conn w' ]

  -- The closure that runs in the namespace.
  unfoldable pub create : UdpAddr → W → Option (MulticastSocket U R) × W
  create group w =
      let (ifaces, w') = k.interfaces w in
      elim ifaces [ none ↦ (none, w') | some is ↦ create_on group (usable is) w' ]

  unfoldable pub new_multicast_socket :
      {N : Type 0} → Namespaces W N → UdpAddr → N → W → Option (MulticastSocket U R) × W
  new_multicast_socket ns group target w = do_in ns target (create group) w

  abbrev pub close_raw_conn : Option R → W → W
  close_raw_conn none w = w
  close_raw_conn (some raw) w = k.close_raw raw w

  -- Close: the raw connection first.
  unfoldable pub close : MulticastSocket U R → W → W
  close s w = k.close_conn s.conn (close_raw_conn s.raw_conn w)
