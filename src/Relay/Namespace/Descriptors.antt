-- ===== src/Relay/Namespace/Descriptors.antt =====
-- internal/relay/relay.go: how many file descriptors buildInstance and teardown leave open.
use netns_mcast_relay.Base.{
  ℕ, ◌+◌, ◌≤◌, ◌≡◌, Option, none, some, List, [], ◌∷◌, ◌++◌, Text, Map, arith, insert, Option-cases,
  inl, inr,
}
use netns_mcast_relay.Net.{UdpAddr}
use netns_mcast_relay.Relay.{
  GroupAddrKey, group_key_eq, group_key_from_udp_addr, Platform, Instance,
}
use netns_mcast_relay.Relay.Namespace.{
  close_sockets, open_sockets, instance_of, build_instance, teardown,
}

-- What the relay relies on, of each resource `x` that is counted, such as one descriptor or all of them:
-- `held x` of it are open, opening a handle or a socket opens what these cost, closing one that is open
-- frees that, and a socket that cannot be made leaves at most `leak` open.
pub record Ledger {W H S : Type 0} (F : Type 0) (os : Platform W H S) : Type 0 where
  pub held : F → W → ℕ
  pub cost : S → F → ℕ
  pub handle_cost : H → F → ℕ
  pub leak : ℕ
  pub opened :
      (p : Text) (w : W) {h : H} {w' : W}
      → os.open_namespace p w ≡ (some h, w')
      → (x : F) → held x w' ≡ held x w + handle_cost h x
  pub not_opened :
      (p : Text) (w : W) {w' : W}
      → os.open_namespace p w ≡ (none, w')
      → (x : F) → held x w' ≡ held x w
  pub made :
      (g : UdpAddr) (h : H) (w : W) {s : S} {w' : W}
      → os.new_multicast_socket g h w ≡ (some s, w')
      → (x : F) → held x w' ≡ held x w + cost s x
  pub not_made :
      (g : UdpAddr) (h : H) (w : W) {w' : W}
      → os.new_multicast_socket g h w ≡ (none, w')
      → (x : F) → (held x w ≤ held x w') × (held x w' ≤ held x w + leak)
  pub closed :
      (s : S) (w : W)
      → ((x : F) → cost s x ≤ held x w)
      → (x : F) → held x (os.close_socket s w) + cost s x ≡ held x w
  pub closed_handle :
      (h : H) (w : W)
      → ((x : F) → handle_cost h x ≤ held x w)
      → (x : F) → held x (os.close_handle h w) + handle_cost h x ≡ held x w

module _ {W H S F : Type 0} (os : Platform W H S) (l : Ledger F os) where
  open l use {held, cost, handle_cost, leak}

  unfoldable pub total_cost : List S → F → ℕ
  total_cost [] x = 0
  total_cost (s ∷ ss) x = cost s x + total_cost ss x

  abbrev pub instance_cost : Instance H S → F → ℕ
  instance_cost inst x = handle_cost inst.handle x + total_cost inst.sockets x

  total_cost-concat :
      (ss : List S) (s : S) (x : F) → total_cost (ss ++ s ∷ []) x ≡ total_cost ss x + cost s x
  unfolding total_cost
  total_cost-concat [] s x = omega arith
  total_cost-concat (y ∷ ss) s x = omega (arith, total_cost-concat ss s x)

  held-close_sockets :
      (ss : List S) (w : W)
      → ((x : F) → total_cost ss x ≤ held x w)
      → (x : F) → held x (close_sockets os ss w) + total_cost ss x ≡ held x w
  unfolding close_sockets total_cost
  held-close_sockets [] w h x = omega arith
  held-close_sockets (s ∷ ss) w h x =
      let c = l.closed s w (λ y. omega (arith, h y)) in
      omega
        (arith, c x, held-close_sockets ss (os.close_socket s w) (λ y. omega (arith, h y, c y)) x)

  -- Over `base`, with the handle `h`: a success adds its sockets, a failure frees the handle too.
  abbrev Balanced : H → (F → ℕ) → Option (List S × Map GroupAddrKey S) × W → Type 0
  Balanced h base (none, w) =
      (x : F) → (base x ≤ held x w + handle_cost h x) × (held x w + handle_cost h x ≤ base x + leak)
  Balanced h base (some (ss, m), w) = (x : F) → held x w ≡ base x + total_cost ss x

  rollback :
      (base : F → ℕ) (h : H) (ss : List S) (w w' : W)
      → ((x : F) → handle_cost h x ≤ base x)
      → ((x : F) → held x w ≡ base x + total_cost ss x)
      → ((x : F) → (held x w ≤ held x w') × (held x w' ≤ held x w + leak))
      → Balanced h base (none, os.close_handle h (close_sockets os ss w'))
  rollback base h ss w w' own e between =
      let c = held-close_sockets ss w' (λ y. omega (arith, e y, (between y).0)) in
      let d =
        l.closed_handle h (close_sockets os ss w')
          (λ y. omega (arith, own y, e y, (between y).0, c y)) in
      λ x.
        (omega (arith, e x, (between x).0, c x, d x), omega (arith, e x, (between x).1, c x, d x))

  open_sockets-Balanced :
      (base : F → ℕ) (h : H) (gs : List UdpAddr) (ss : List S) (m : Map GroupAddrKey S) (w : W)
      → ((x : F) → handle_cost h x ≤ base x)
      → ((x : F) → held x w ≡ base x + total_cost ss x)
      → Balanced h base (open_sockets os h gs ss m w)
  unfolding open_sockets
  open_sockets-Balanced base h [] ss m w own e = e
  open_sockets-Balanced base h (g ∷ gs) ss m w own e =
      let w' = (os.new_multicast_socket g h w).1 in
      elim (Option-cases (os.new_multicast_socket g h w).0) [
        | inl gone ↦
            rw (gone, open_sockets)
              (rollback base h ss w w' own e (l.not_made g h w (λ i. (gone i, w'))))
        | inr (s, made) ↦
            rw (made, open_sockets)
              (open_sockets-Balanced base h gs (ss ++ s ∷ [])
                (insert (group_key_from_udp_addr (some (os.socket_group s))) s m) w' own
                (λ x.
                  omega (arith, e x, l.made g h w (λ i. (made i, w')) x, total_cost-concat ss s x)))
      ]

  -- What is open after a namespace was built, or was not.
  abbrev pub Accounted : W → Option (Instance H S) × W → Type 0
  Accounted w (none, w') = (x : F) → (held x w ≤ held x w') × (held x w' ≤ held x w + leak)
  Accounted w (some inst, w') = (x : F) → held x w' ≡ held x w + instance_cost inst x

  instance_of-Accounted :
      (path : Text) (h : H) (w : W) (r : Option (List S × Map GroupAddrKey S) × W)
      → Balanced h (λ x. held x w + handle_cost h x) r
      → Accounted w (instance_of os path h r)
  instance_of-Accounted path h w (none, w') b =
      λ x. (omega (arith, (b x).0), omega (arith, (b x).1))
  instance_of-Accounted path h w (some (ss, m), w') b = λ x. omega (arith, b x)

  -- Building an instance accounts for what is open, on every path through the code: one that was
  -- built holds its handle and its sockets, and one that was not leaves at most what one failed socket
  -- leaves behind.
  pub build_instance-Accounted :
      (groups : List UdpAddr) (path : Text) (w : W) → Accounted w (build_instance os groups path w)
  unfolding build_instance total_cost
  build_instance-Accounted groups path w =
      let w' = (os.open_namespace path w).1 in
      elim (Option-cases (os.open_namespace path w).0) [
        | inl gone ↦
            rw (gone, build_instance)
              (let e = l.not_opened path w {w' = w'} (λ i. (gone i, w')) in
                λ x. (omega (arith, e x), omega (arith, e x)))
        | inr (h, yes_h) ↦
            rw (yes_h, build_instance)
              (let e = l.opened path w {w' = w'} (λ i. (yes_h i, w')) in
                instance_of-Accounted path h w (open_sockets os h groups [] [] w') (
                  open_sockets-Balanced (λ x. held x w + handle_cost h x) h groups [] [] w'
                    (λ x. omega arith) (λ x. omega (arith, e x))))
      ]

  pub held-teardown :
      (inst : Instance H S) (w : W)
      → ((x : F) → instance_cost inst x ≤ held x w)
      → (x : F) → held x (teardown os inst w) + instance_cost inst x ≡ held x w
  unfolding teardown
  held-teardown inst w h x =
      let c = held-close_sockets inst.sockets w (λ y. omega (arith, h y)) in
      omega (
        arith,
        c x,
        l.closed_handle inst.handle (close_sockets os inst.sockets w) (λ y. omega (arith, h y, c y))
            x,
      )
