-- ===== src/Relay/Namespace/Sockets.antt =====
-- internal/relay/relay.go: the map from groups to sockets that buildInstance leaves to the send
-- worker.
use netns_mcast_relay.Base.{
  ◌≡◌, refl, ap, false, Option, none, some, List, [], ◌∷◌, ◌++◌, Text, Map, lookup, insert,
  lookup-insert, All, Bool-cases, Option-cases, inl, inr,
}
use netns_mcast_relay.Net.{UdpAddr}
use netns_mcast_relay.Relay.{
  GroupAddrKey, group_key_eq, group_key_beq, group_key_beq_iff, group_key_from_udp_addr, Platform,
  Instance,
}
use netns_mcast_relay.Relay.Namespace.{open_sockets, instance_of, build_instance}

module _ {W H S : Type 0} (os : Platform W H S) where
  abbrev pub key_of : UdpAddr → GroupAddrKey
  key_of g = group_key_from_udp_addr (some g)

  -- The map has a socket for the group, and the socket is one of that group.
  abbrev pub HasSocket : Map GroupAddrKey S → UdpAddr → Type 0
  HasSocket m g = (s : S) × (lookup (key_of g) m ≡ some s) × (key_of (os.socket_group s) ≡ key_of g)

  insert-HasSocket :
      (s : S) (m : Map GroupAddrKey S) (g : UdpAddr)
      → HasSocket m g
      → HasSocket (insert (key_of (os.socket_group s)) s m) g
  insert-HasSocket s m g (t, found, same) =
      let step = lookup-insert (key_of (os.socket_group s)) (key_of g) s m in
      elim (Bool-cases (group_key_beq (key_of (os.socket_group s)) (key_of g))) [
        | inl e ↦ (s, rw (step, e), (group_key_beq_iff _ _).0 e)
        | inr e ↦ (t, rw (step, e) found, same)
      ]

  insert-HasSocket_self :
      (s : S) (m : Map GroupAddrKey S) (g : UdpAddr)
      → os.socket_group s ≡ g
      → HasSocket (insert (key_of (os.socket_group s)) s m) g
  insert-HasSocket_self s m g e = (
    s,
    rw (
      lookup-insert (key_of (os.socket_group s)) (key_of g) s m,
      (group_key_beq_iff _ _).1 (ap key_of e),
    ),
    ap key_of e,
  )

  -- A success keeps what the map had and serves the groups that were left.
  abbrev Serves :
      Map GroupAddrKey S → List UdpAddr → Option (List S × Map GroupAddrKey S) × W → Type 0
  Serves m gs (none, w) = Unit
  Serves m gs (some (ss, m'), w) =
      ((g : UdpAddr) → HasSocket m g → HasSocket m' g) × All (HasSocket m') gs

  Serves-cons :
      (s : S) (g : UdpAddr) (m : Map GroupAddrKey S) (gs : List UdpAddr)
      (r : Option (List S × Map GroupAddrKey S) × W)
      → os.socket_group s ≡ g
      → Serves (insert (key_of (os.socket_group s)) s m) gs r
      → Serves m (g ∷ gs) r
  Serves-cons s g m gs (none, w) e h = tt
  Serves-cons s g m gs (some (ss, m'), w) e (mono, all) =
      (λ k had. mono k (insert-HasSocket s m k had), (mono g (insert-HasSocket_self s m g e), all))

  abbrev pub IsReady : Text → List UdpAddr → Option (Instance H S) × W → Type 0
  IsReady path groups (none, w) = Unit
  IsReady path groups (some inst, w) =
      (inst.path ≡ path)
      × (inst.send_ch ≡ [])
      × (inst.cancelled ≡ false)
      × All (HasSocket inst.sockets_by_group) groups

  instance_of-IsReady :
      (path : Text) (groups : List UdpAddr) (h : H) (r : Option (List S × Map GroupAddrKey S) × W)
      → Serves [] groups r
      → IsReady path groups (instance_of os path h r)
  instance_of-IsReady path groups h (none, w) s = tt
  instance_of-IsReady path groups h (some (ss, m), w) s = (refl, refl, refl, s.1)

  -- A socket is of the group that it was made for.
  abbrev pub IsFaithful : Type 0
  IsFaithful =
      (g : UdpAddr) (h : H) (w : W) (s : S) (w' : W)
      → os.new_multicast_socket g h w ≡ (some s, w')
      → os.socket_group s ≡ g

  module _ (faithful : IsFaithful) where
    open_sockets-Serves :
        (h : H) (gs : List UdpAddr) (ss : List S) (m : Map GroupAddrKey S) (w : W)
        → Serves m gs (open_sockets os h gs ss m w)
    unfolding open_sockets
    open_sockets-Serves h [] ss m w = (λ g had. had, tt)
    open_sockets-Serves h (g ∷ gs) ss m w =
        let w' = (os.new_multicast_socket g h w).1 in
        elim (Option-cases (os.new_multicast_socket g h w).0) [
          | inl gone ↦ rw (gone, open_sockets) tt
          | inr (s, made) ↦
              rw (made, open_sockets)
                (Serves-cons s g m gs _ (faithful g h w s w' (λ i. (made i, w'))) (
                  open_sockets-Serves h gs (ss ++ s ∷ []) (insert (key_of (os.socket_group s)) s m)
                    w'))
        ]

    -- An instance that was built bears its path, starts live with an empty queue, and has a socket
    -- for every configured group, under the key that packets of the group are looked up by,
    -- if sockets are of the groups that they were made for.
    pub build_instance-IsReady :
        (groups : List UdpAddr) (path : Text) (w : W)
        → IsReady path groups (build_instance os groups path w)
    unfolding build_instance
    build_instance-IsReady groups path w =
        let w' = (os.open_namespace path w).1 in
        elim (Option-cases (os.open_namespace path w).0) [
          | inl gone ↦ rw (gone, build_instance) tt
          | inr (h, found) ↦
              rw (found, build_instance)
                (instance_of-IsReady path groups h _ (open_sockets-Serves h groups [] [] w'))
        ]
