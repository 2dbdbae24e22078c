-- ===== src/Socket/Create/Tally.antt =====
-- internal/socket/multicast.go: how often a descriptor is open, and how many are, through Close.
use netns_mcast_relay.Base.{
  ℕ, ◌+◌, ◌≤◌, ◌≡◌, refl, ap, Bool-cases, inl, inr, Option, none, some, List, [], ◌∷◌, Eq, beq_self,
  arith, if◌then◌else◌,
}
use netns_mcast_relay.Netns.Do.{Namespaces}
use netns_mcast_relay.Socket.Create.{Kernel, MulticastSocket, close_raw_conn, close}
use netns_mcast_relay.Socket.Create.Open.{Fd, conn_fd, raw_fd, erase, Descriptors}
use netns_mcast_relay.Socket.Create.Descriptors.{raw_on, socket_on}

module _ {A : Type 0} (e : Eq A) where
  -- What one entry counts for: for `none`, which counts them all, and for the one that is named.
  abbrev pub weight : Option A → A → ℕ
  weight none y = 1
  weight (some x) y = if e.beq x y then 1 else 0

  unfoldable pub tally : Option A → List A → ℕ
  tally i [] = 0
  tally i (y ∷ ys) = weight i y + tally i ys

  pub weight_self : (x : A) → weight (some x) x ≡ 1
  weight_self x = rw (beq_self e x) refl

  pub weight_le_one : (i : Option A) (y : A) → weight i y ≤ 1
  weight_le_one none y = omega arith
  weight_le_one (some x) y = ground arith

  -- Where it is open, it is taken away, and nothing else.
  pub tally-erase :
      (i : Option A) (x : A) (ys : List A)
      → 1 ≤ tally (some x) ys
      → tally i (erase e x ys) + weight i x ≡ tally i ys
  unfolding tally erase
  tally-erase i x [] h = absurd (omega (arith, h))
  tally-erase i x (y ∷ ys) h = elim (Bool-cases (e.beq x y)) [
    | inl same ↦ rw same (let one = ap (weight i) ((e.beq_iff x y).0 same) in omega (arith, one))
    | inr other ↦ rw other (
        let rest = tally-erase i x ys (let k = rw other at h in omega (arith, k)) in
        omega (arith, rest))
  ]

module _ {W U R N : Type 0} (k : Kernel W U R) (ns : Namespaces W N) (d : Descriptors k ns) where
  open d use {fds, fd_eq}

  abbrev pub held : Option (Fd U R N) → W → ℕ
  held i w = tally fd_eq i (fds w)

  abbrev pub cost : MulticastSocket U R → Option (Fd U R N) → ℕ
  cost s i = tally fd_eq i (socket_on s [])

  pub tally-socket_on :
      (s : MulticastSocket U R) (base : List (Fd U R N)) (i : Option (Fd U R N))
      → tally fd_eq i (socket_on s base) ≡ tally fd_eq i base + cost s i
  unfolding tally
  tally-socket_on s base i = go s.raw_conn
    where
      go :
          (raw : Option R)
          → tally fd_eq i (raw_on raw (conn_fd s.conn ∷ base))
            ≡ tally fd_eq i base + tally fd_eq i (raw_on raw (conn_fd s.conn ∷ []))
      go none = omega arith
      go (some r) = omega arith

  -- A socket costs two descriptors at most, and so does what is left of a failed one.
  pub tally-raw_on :
      (raw : Option R) (base : List (Fd U R N)) (i : Option (Fd U R N))
      → (tally fd_eq i base ≤ tally fd_eq i (raw_on raw base))
        × (tally fd_eq i (raw_on raw base) ≤ tally fd_eq i base + 1)
  unfolding tally
  tally-raw_on none base i = (omega arith, omega arith)
  tally-raw_on (some r) base i =
      let one = weight_le_one fd_eq i (raw_fd r) in (omega arith, omega (arith, one))

  pub cost_le : (s : MulticastSocket U R) (i : Option (Fd U R N)) → cost s i ≤ 2
  unfolding tally
  cost_le s i =
      let (lo, hi) = tally-raw_on s.raw_conn (conn_fd s.conn ∷ []) i in
      let one = weight_le_one fd_eq i (conn_fd s.conn) in omega (arith, hi, one)

  held-close_conn :
      (c : U) (w : W) (i : Option (Fd U R N))
      → 1 ≤ held (some (conn_fd c)) w
      → held i (k.close_conn c w) + weight fd_eq i (conn_fd c) ≡ held i w
  held-close_conn c w i h = rw (d.at_close_conn c w) (tally-erase fd_eq i (conn_fd c) (fds w) h)

  held-close_raw :
      (r : R) (w : W) (i : Option (Fd U R N))
      → 1 ≤ held (some (raw_fd r)) w
      → held i (k.close_raw r w) + weight fd_eq i (raw_fd r) ≡ held i w
  held-close_raw r w i h = rw (d.at_close_raw r w) (tally-erase fd_eq i (raw_fd r) (fds w) h)

  held-close_both :
      (c : U) (raw : Option R) (w : W)
      → ((i : Option (Fd U R N)) → tally fd_eq i (raw_on raw (conn_fd c ∷ [])) ≤ held i w)
      → (i : Option (Fd U R N))
      → held i (k.close_conn c (close_raw_conn k raw w))
          + tally fd_eq i (raw_on raw (conn_fd c ∷ []))
        ≡ held i w
  unfolding tally
  held-close_both c none w h i =
      let open_c = h (some (conn_fd c)) in
      let self = weight_self fd_eq (conn_fd c) in
      let closed = held-close_conn c w i (omega (arith, open_c, self)) in omega (arith, closed)
  held-close_both c (some r) w h i =
      let w' = k.close_raw r w in
      let open_r = h (some (raw_fd r)) in
      let open_c = h (some (conn_fd c)) in
      let self_r = weight_self fd_eq (raw_fd r) in
      let self_c = weight_self fd_eq (conn_fd c) in
      let one : 1 ≤ held (some (raw_fd r)) w = omega (arith, open_r, self_r) in
      let still = held-close_raw r w (some (conn_fd c)) one in
      let first = held-close_raw r w i one in
      let closed = held-close_conn c w' i (omega (arith, open_c, self_c, still)) in
      omega (arith, first, closed)

  -- Close frees the descriptors of a socket that is open, and no others.
  pub held-close :
      (s : MulticastSocket U R) (w : W)
      → ((i : Option (Fd U R N)) → cost s i ≤ held i w)
      → (i : Option (Fd U R N)) → held i (close k s w) + cost s i ≡ held i w
  unfolding close
  held-close s w h i = held-close_both s.conn s.raw_conn w h i
