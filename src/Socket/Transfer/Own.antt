-- ===== src/Socket/Transfer/Own.antt =====
-- internal/socket/multicast.go: ReadFrom and WriteToGroup, and what the socket has written itself.
use netns_mcast_relay.Base.{pos}
use netns_mcast_relay.Socket.Transfer.{Arrival}
use netns_mcast_relay.Base.{◌↔◌, ◌++◌, All, ap, ◌∙◌, sym, subst, Bool-cases}
use netns_mcast_relay.Base.{if◌then◌else◌}
use netns_mcast_relay.Socket.Transfer.{read_from}
use netns_mcast_relay.Base.{
  ℕ, ◌+◌, ◌<◌, ◌≡◌, ◌≢◌, refl, Bool, true, false, not, Option, none, some, List, [], ◌∷◌, Bytes, ℤ,
  arith, keep, lookup-insert, text_eq, beq_self, lt→ltb, Option-cases, inl, inr, if◌then◌else◌,
}
use netns_mcast_relay.Net.{UdpAddr, to4}
use netns_mcast_relay.Socket.Checksum.{segment}
use netns_mcast_relay.Socket.Checksum.Total.{udp_checksum-some}
use netns_mcast_relay.Socket.Echo.{
  RecentTx, entries, mark_sent, is_self_echo, is_after, self_echo_window,
}
use netns_mcast_relay.Socket.Create.{MulticastSocket}
use netns_mcast_relay.Socket.Transfer.{
  failed, datagram, Round, accepted, ttl_of, read_loop, Wire, Written, write_to_group, preserve,
  write_raw_udp, plain_after, port_number, set_ttl, give_up,
}

module _ (md5 : Bytes → Bytes) where
  -- A datagram that the socket has written itself.
  abbrev pub IsOwn : Round → Type 0
  IsOwn r =
      (bytes : Bytes) × (addr : UdpAddr) × (cm : Option ℤ) × (r.arrival
        ≡ datagram bytes (some addr) cm)
      × (is_self_echo md5 r.now bytes r.recent ≡ true)

  -- The TTL of the control message, or 0 without one.
  abbrev pub HasTtl : Option ℤ → ℤ → Type 0
  HasTtl none ttl = ttl ≡ pos 0
  HasTtl (some t) ttl = ttl ≡ t

  -- The datagram comes after nothing but the socket's own, and is not its own.
  pub record Foreign (rs : List Round) (bytes : Bytes) (addr : UdpAddr) (ttl : ℤ) : Type 0 where
    pub before : List Round
    pub round : Round
    pub after : List Round
    pub cm : Option ℤ
    pub split : rs ≡ before ++ round ∷ after
    pub own : All IsOwn before
    pub arrived : round.arrival ≡ datagram bytes (some addr) cm
    pub fresh : is_self_echo md5 round.now bytes round.recent ≡ false
    pub has_ttl : HasTtl cm ttl

  ttl_of-HasTtl : (cm : Option ℤ) → HasTtl cm (ttl_of cm)
  ttl_of-HasTtl none = refl
  ttl_of-HasTtl (some t) = refl

  HasTtl-ttl_of : (cm : Option ℤ) (ttl : ℤ) → HasTtl cm ttl → ttl_of cm ≡ ttl
  HasTtl-ttl_of none ttl h = sym h
  HasTtl-ttl_of (some t) ttl h = sym h

  -- One of the socket's own comes before.
  later_Foreign :
      (r : Round) (rs : List Round) (bytes : Bytes) (addr : UdpAddr) (ttl : ℤ)
      → IsOwn r
      → Foreign rs bytes addr ttl
      → Foreign (r ∷ rs) bytes addr ttl
  later_Foreign r rs bytes addr ttl own f = record {
    before = r ∷ f.before;
    round = f.round;
    after = f.after;
    cm = f.cm;
    split = ap (λ l. r ∷ l) f.split;
    own = (own, f.own);
    arrived = f.arrived;
    fresh = f.fresh;
    has_ttl = f.has_ttl;
  }

  read_loop-Foreign :
      (rs : List Round) (bytes : Bytes) (addr : UdpAddr) (ttl : ℤ)
      → read_loop md5 rs ≡ accepted bytes addr ttl
      → Foreign rs bytes addr ttl
  unfolding read_loop
  read_loop-Foreign [] bytes addr ttl h = cc
  read_loop-Foreign (heard ∷ rs) bytes addr ttl h =
      go heard.arrival refl (read_loop-Foreign rs bytes addr ttl) h
    where
      go :
          (a : Arrival)
          → heard.arrival ≡ a
          → (read_loop md5 rs ≡ accepted bytes addr ttl → Foreign rs bytes addr ttl)
          → read_loop md5 (record heard { arrival = a } ∷ rs) ≡ accepted bytes addr ttl
          → Foreign (heard ∷ rs) bytes addr ttl
      go failed e ih k = cc
      go (datagram b none cm) e ih k = cc
      go (datagram b (some from) cm) e ih k =
          elim (Bool-cases (is_self_echo md5 heard.now b heard.recent)) [
            | inl echo ↦
                later_Foreign heard rs bytes addr ttl (b, from, cm, e, echo) (ih (rw echo at k))
            | inr fresh ↦
                let same : accepted b from (ttl_of cm) ≡ accepted bytes addr ttl = rw fresh at k in
                let same_b : b ≡ bytes = cc in
                let same_from : from ≡ addr = cc in
                let same_ttl : ttl_of cm ≡ ttl = cc in
                record {
                  before = [];
                  round = heard;
                  after = rs;
                  cm = cm;
                  split = refl;
                  own = tt;
                  arrived =
                      e
                      ∙ ap (λ x. datagram x (some from) cm) same_b
                      ∙ ap (λ x. datagram bytes (some x) cm) same_from;
                  fresh = sym (ap (λ x. is_self_echo md5 heard.now x heard.recent) same_b) ∙ fresh;
                  has_ttl = subst (HasTtl cm) same_ttl (ttl_of-HasTtl cm);
                }
          ]

  skip_own :
      (before rest : List Round)
      → All IsOwn before
      → read_loop md5 (before ++ rest) ≡ read_loop md5 rest
  unfolding read_loop
  skip_own [] rest own = refl
  skip_own (r ∷ before) rest own =
      let (bytes, addr, cm, e, echo) = own.0 in rw (e, echo) (skip_own before rest own.1)

  Foreign-read_loop :
      (rs : List Round) (bytes : Bytes) (addr : UdpAddr) (ttl : ℤ)
      → Foreign rs bytes addr ttl
      → read_loop md5 rs ≡ accepted bytes addr ttl
  unfolding read_loop
  Foreign-read_loop rs bytes addr ttl f =
      ap (read_loop md5) f.split
      ∙ skip_own f.before (f.round ∷ f.after) f.own
      ∙ rw (f.arrived, f.fresh) (ap (accepted bytes addr) (HasTtl-ttl_of f.cm ttl f.has_ttl))

  -- ReadFrom returns a datagram just when its deadline could be set and the datagram, of a UDP sender
  -- and no echo of the socket's own writes, arrives after nothing but such echoes; its TTL is that of the
  -- control message, or 0 without one.
  pub read_from_iff :
      (armed : Bool) (rs : List Round) (bytes : Bytes) (addr : UdpAddr) (ttl : ℤ)
      → (read_from md5 armed rs ≡ accepted bytes addr ttl)
        ↔ ((armed ≡ true) × Foreign rs bytes addr ttl)
  unfolding read_from
  read_from_iff true rs bytes addr ttl = (
    λ h. (refl, read_loop-Foreign rs bytes addr ttl h),
    λ h. Foreign-read_loop rs bytes addr ttl h.1,
  )
  read_from_iff false rs bytes addr ttl = (λ h. cc, λ h. cc)

  mark_sent-echo :
      (now later : ℕ) (bytes : Bytes) (recent : RecentTx)
      → later < now + self_echo_window
      → is_self_echo md5 later bytes (mark_sent md5 now bytes recent) ≡ true
  unfolding mark_sent is_self_echo
  mark_sent-echo now later bytes recent h =
      let m = keep (λ (b : Bytes × ℕ). is_after now (some b.1)) (entries recent) in
      rw
        (
          lookup-insert (md5 bytes) (md5 bytes) (now + self_echo_window) m,
          beq_self text_eq (md5 bytes),
        )
        (lt→ltb later (now + self_echo_window) h)

  module _ {W U R : Type 0} (wire : Wire W U R) where
    -- The call returned, and afterwards `bytes` counts as an echo at `later`.
    abbrev pub Remembers : ℕ → Bytes → Option (Written W) → Type 0
    Remembers later bytes none = ⊥
    Remembers later bytes (some r) = is_self_echo md5 later bytes r.recent_tx ≡ true

    write_raw_udp-some :
        (s : MulticastSocket U R) (raw : R) (bytes : Bytes) (source : UdpAddr) (ttl : ℤ) (w : W)
        (t u : Bytes)
        → to4 source.ip ≡ some u
        → to4 s.group.ip ≡ some t
        → write_raw_udp wire s raw bytes source ttl w ≢ none
    unfolding write_raw_udp
    write_raw_udp-some s raw bytes source ttl w t u eu et =
        let (k, e) =
          udp_checksum-some source.ip s.group.ip u t
            (segment (port_number source.port) (port_number s.group.port) 0 bytes) eu et in
        ground (arith, e)

    preserve-some :
        (s : MulticastSocket U R) (bytes : Bytes) (source : Option UdpAddr) (ttl : ℤ) (w : W)
        (t : Bytes)
        → to4 s.group.ip ≡ some t
        → preserve wire s bytes source ttl w ≢ none
    preserve-some s bytes none ttl w t et = ground arith
    preserve-some s bytes (some source) ttl w t et = elim (Option-cases (to4 source.ip)) [
      | inl gone ↦ rw (gone, preserve) (ground arith)
      | inr (u, eu) ↦ elim (Option-cases s.raw_conn) [
        | inl no_raw ↦ rw (eu, no_raw, preserve) (ground arith)
        | inr (raw, got) ↦
            rw (eu, got, preserve)
              (let e = write_raw_udp-some s raw bytes source ttl w t u eu et in ground (arith, e))
      ]
    ]

    plain_after-Remembers :
        (s : MulticastSocket U R) (later : ℕ) (bytes : Bytes) (recent : RecentTx)
        (o : Option (Bool × Bool × W))
        → o ≢ none
        → is_self_echo md5 later bytes recent ≡ true
        → Remembers later bytes (plain_after wire s bytes recent o)
    plain_after-Remembers s later bytes recent none h e = absurd (h refl)
    plain_after-Remembers s later bytes recent (some (ok, bad, w)) h e = ground (arith, e)

    stages-Remembers :
        (later : ℕ) (bytes : Bytes) (b b' : Bool) (x y z : Option (Written W))
        → Remembers later bytes x
        → Remembers later bytes y
        → Remembers later bytes z
        → Remembers later bytes (if b then x else if b' then y else z)
    stages-Remembers later bytes true b' x y z hx hy hz = hx
    stages-Remembers later bytes false true x y z hx hy hz = hy
    stages-Remembers later bytes false false x y z hx hy hz = hz

    -- On a group of an IPv4 address WriteToGroup does not panic, whatever the source, the data and the
    -- system's answers; and for the whole window the payload counts as the socket's own echo, even
    -- if the write failed.
    pub write_to_group-Remembers :
        (now later : ℕ) (s : MulticastSocket U R) (recent : RecentTx) (bytes : Bytes)
        (source : Option UdpAddr) (ttl : ℤ) (w : W) (t : Bytes)
        → to4 s.group.ip ≡ some t
        → later < now + self_echo_window
        → Remembers later bytes (write_to_group wire md5 now s recent bytes source ttl w)
    unfolding write_to_group
    write_to_group-Remembers now later s recent bytes source ttl w t et h =
        let e = mark_sent-echo now later bytes recent h in
        let marked = mark_sent md5 now bytes recent in
        let (armed, w1) = wire.set_write_deadline s.conn w in
        let (set, w2) = set_ttl wire s ttl w1 in
        stages-Remembers later bytes (not armed) (not set) (some (give_up wire marked w1))
          (some (give_up wire marked w2))
          (plain_after wire s bytes marked (preserve wire s bytes source ttl w2)) e e
          (plain_after-Remembers s later bytes marked (preserve wire s bytes source ttl w2)
            (preserve-some s bytes source ttl w2 t et) e)
