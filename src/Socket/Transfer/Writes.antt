-- ===== src/Socket/Transfer/Writes.antt =====
-- internal/socket/multicast.go: which datagrams WriteToGroup hands to the system, in which order, and
-- with which TTL.
use netns_mcast_relay.Socket.Transfer.Log.{refused, noted}
use netns_mcast_relay.Base.{◌≢◌, ◌≤◌, ◌∷◌, negsuc}
use mathlib.Core.List.{append-nil}
use mathlib.Core.Option.{none-ne-some}
use netns_mcast_relay.Base.{
  ℕ, ◌≡◌, refl, sym, ap, ◌∙◌, ◌⊎◌, inl, inr, Bool, true, false, not, ◌||◌, Option, none, some, List,
  [], ◌++◌, Bytes, ℤ, pos, arith, Bool-cases, Option-cases, if◌then◌else◌, ltb, length,
}
use netns_mcast_relay.Net.{UdpAddr, to4, is_unspecified}
use netns_mcast_relay.Socket.Checksum.{udp_checksum, segment}
use netns_mcast_relay.Socket.Echo.{RecentTx, mark_sent}
use netns_mcast_relay.Socket.Create.{MulticastSocket}
use netns_mcast_relay.Socket.Transfer.Log.{
  Attempt, Recorder, egress, plain_copies, raw_copies, log-write_each, write_raw_each_lem,
}
use netns_mcast_relay.Socket.Transfer.{
  Wire, Written, is_positive, is_port, port_number, send_raw, write_raw_udp, raw_outcome, with_raw,
  preserve, write_each, result_of, plain_after, set_ttl, write_to_group,
}

module _ {W U R : Type 0} (wire : Wire W U R) (rec : Recorder wire) where
  open rec use {log, ttl_now}

  -- When raw copies are sent: there is a raw connection, the sender is an IPv4 address with a port, and
  -- the payload fits into a datagram.
  pub record Eligible (s : MulticastSocket U R) (bytes : Bytes) (source : UdpAddr) : Type 0 where
    pub v4 : to4 source.ip ≢ none
    pub specified : is_unspecified source.ip ≡ false
    pub has_raw : s.raw_conn ≢ none
    pub port : (n : ℕ) × (source.port ≡ pos n) × (n ≤ 65535)
    pub fits : length bytes ≤ 65507

  -- One raw copy on each interface, from the sender to the group, of the segment with its checksum,
  -- with a TTL of at least 1; or the failed deadline that kept them back.
  abbrev pub SentRaw : MulticastSocket U R → Bytes → UdpAddr → ℤ → List Attempt → Type 0
  SentRaw s bytes source ttl raws =
      (raws ≡ refused ∷ [])
      ⊎ ((k : ℕ) × (udp_checksum source.ip s.group.ip
              (segment (port_number source.port) (port_number s.group.port) 0 bytes)
            ≡ some k)
          × (raws
              ≡ raw_copies (egress s) (if is_positive ttl then ttl else pos 1) source.ip s.group.ip
                  (segment (port_number source.port) (port_number s.group.port) k bytes)))

  -- The raw copies, just when they can be sent.
  abbrev pub RawCopies : MulticastSocket U R → Bytes → UdpAddr → ℤ → List Attempt → Type 0
  RawCopies s bytes source ttl raws =
      (Eligible s bytes source × SentRaw s bytes source ttl raws)
      ⊎ ((Eligible s bytes source → ⊥) × (raws ≡ []))

  -- The panic of udpChecksum, of an address that is not IPv4.
  abbrev pub Panics : MulticastSocket U R → Bytes → Option UdpAddr → Type 0
  Panics s bytes none = ⊥
  Panics s bytes (some source) =
      Eligible s bytes source
      × (udp_checksum source.ip s.group.ip
            (segment (port_number source.port) (port_number s.group.port) 0 bytes)
          ≡ none)

  -- A state after `w` in which such copies were tried and the TTL is the same.
  abbrev Logged : (List Attempt → Type 0) → W → W → Type 0
  Logged P w w' =
      (ttl_now w' ≡ ttl_now w) × ((raws : List Attempt) × (log w' ≡ log w ++ raws) × P raws)

  unchanged : (P : List Attempt → Type 0) (w : W) → P [] → Logged P w w
  unchanged P w p = (refl, ([], sym (append-nil (log w)), p))

  send_raw-Logged :
      (s : MulticastSocket U R) (raw : R) (bytes : Bytes) (source : UdpAddr) (ttl : ℤ) (k : ℕ)
      (w : W)
      → udp_checksum source.ip s.group.ip
          (segment (port_number source.port) (port_number s.group.port) 0 bytes)
        ≡ some k
      → Eligible s bytes source
      → Logged (RawCopies s bytes source ttl) w (send_raw wire s raw bytes source ttl k w).1
  send_raw-Logged s raw bytes source ttl k w e can =
      let payload = segment (port_number source.port) (port_number s.group.port) k bytes in
      let t = if is_positive ttl then ttl else pos 1 in
      let w1 = (wire.set_raw_write_deadline raw w).1 in
      let (logged, same) =
        write_raw_each_lem wire rec raw t source.ip s.group.ip payload (egress s) false w1 in
      elim (Bool-cases (wire.set_raw_write_deadline raw w).0) [
        | inl armed ↦
            rw (armed, send_raw)
              (
                same ∙ rec.ttl_raw_deadline raw w,
                (
                  raw_copies (egress s) t source.ip s.group.ip payload,
                  logged
                      ∙ ap (λ l. l ++ raw_copies (egress s) t source.ip s.group.ip payload)
                          (rw (armed, append-nil (log w)) at (rec.log_raw_deadline raw w)),
                  inl (can, inr (k, e, refl)),
                ),
              )
        | inr late ↦
            rw (late, send_raw)
              (
                rec.ttl_raw_deadline raw w,
                (refused ∷ [], rw late at (rec.log_raw_deadline raw w), inl (can, inl refl)),
              )
      ]

  abbrev RawLogged : MulticastSocket U R → Bytes → UdpAddr → ℤ → W → Option (Bool × W) → Type 0
  RawLogged s bytes source ttl w none = Panics s bytes (some source)
  RawLogged s bytes source ttl w (some (ok, w')) = Logged (RawCopies s bytes source ttl) w w'

  -- The tests of writeRawUDP.
  in_range :
      (source : UdpAddr) (bytes : Bytes)
      → (not (is_port source.port) || ltb 65507 (length bytes)) ≡ false
      → ((n : ℕ) × (source.port ≡ pos n) × (n ≤ 65535)) × (length bytes ≤ 65507)
  in_range source bytes h = go source.port refl h
    where
      go :
          (port : ℤ)
          → source.port ≡ port
          → (not (is_port port) || ltb 65507 (length bytes)) ≡ false
          → ((n : ℕ) × (source.port ≡ pos n) × (n ≤ 65535)) × (length bytes ≤ 65507)
      go (pos n) e k = ((n, e, ground (arith, k)), ground (arith, k))
      go (negsuc n) e k = ground (arith, k)

  out_of_range :
      (s : MulticastSocket U R) (source : UdpAddr) (bytes : Bytes)
      → (not (is_port source.port) || ltb 65507 (length bytes)) ≡ true
      → Eligible s bytes source
      → ⊥
  out_of_range s source bytes h can =
      let (n, e, small) = can.port in
      let fits = can.fits in
      let k : (not (is_port (pos n)) || ltb 65507 (length bytes)) ≡ true = rw e at h in
      ground (arith, k, small, fits)

  write_raw_udp-RawLogged :
      (s : MulticastSocket U R) (raw : R) (bytes : Bytes) (source : UdpAddr) (ttl : ℤ) (w : W)
      → to4 source.ip ≢ none
      → is_unspecified source.ip ≡ false
      → s.raw_conn ≡ some raw
      → RawLogged s bytes source ttl w (write_raw_udp wire s raw bytes source ttl w)
  unfolding write_raw_udp
  write_raw_udp-RawLogged s raw bytes source ttl w v4 specified has =
      elim (Bool-cases (not (is_port source.port) || ltb 65507 (length bytes))) [
        | inl bad ↦
            rw (bad, write_raw_udp)
              (unchanged (RawCopies s bytes source ttl) w
                (inr (out_of_range s source bytes bad, refl)))
        | inr fine ↦
            let (port, fits) = in_range source bytes fine in
            let can : Eligible s bytes source = record {
              v4 = v4;
              specified = specified;
              has_raw = λ gone. none-ne-some raw (sym gone ∙ has);
              port = port;
              fits = fits;
            } in
            elim (Option-cases (
              udp_checksum source.ip s.group.ip
                (segment (port_number source.port) (port_number s.group.port) 0 bytes))) [
                  | inl panics ↦ rw (fine, panics, write_raw_udp) (can, panics)
                  | inr (k, e) ↦
                      rw (fine, e, write_raw_udp) (send_raw-Logged s raw bytes source ttl k w e can)
                ]
      ]

  abbrev pub Preserved : MulticastSocket U R → Bytes → Option UdpAddr → ℤ → List Attempt → Type 0
  Preserved s bytes none ttl raws = raws ≡ []
  Preserved s bytes (some source) ttl raws = RawCopies s bytes source ttl raws

  abbrev PreserveLogged :
      MulticastSocket U R → Bytes → Option UdpAddr → ℤ → W → Option (Bool × Bool × W) → Type 0
  PreserveLogged s bytes source ttl w none = Panics s bytes source
  PreserveLogged s bytes source ttl w (some (ok, bad, w')) =
      Logged (Preserved s bytes source ttl) w w'

  raw_outcome-PreserveLogged :
      (s : MulticastSocket U R) (bytes : Bytes) (source : UdpAddr) (ttl : ℤ) (w : W)
      (o : Option (Bool × W))
      → RawLogged s bytes source ttl w o
      → PreserveLogged s bytes (some source) ttl w (raw_outcome wire o)
  raw_outcome-PreserveLogged s bytes source ttl w none h = h
  raw_outcome-PreserveLogged s bytes source ttl w (some (ok, w')) h = h

  with_raw-PreserveLogged :
      (s : MulticastSocket U R) (r : Option R) (bytes : Bytes) (source : UdpAddr) (ttl : ℤ) (w : W)
      → to4 source.ip ≢ none
      → is_unspecified source.ip ≡ false
      → s.raw_conn ≡ r
      → PreserveLogged s bytes (some source) ttl w (with_raw wire s r bytes source ttl w)
  with_raw-PreserveLogged s none bytes source ttl w v4 specified has =
      unchanged (RawCopies s bytes source ttl) w (inr (λ can. can.has_raw has, refl))
  with_raw-PreserveLogged s (some raw) bytes source ttl w v4 specified has =
      raw_outcome-PreserveLogged s bytes source ttl w (write_raw_udp wire s raw bytes source ttl w)
        (write_raw_udp-RawLogged s raw bytes source ttl w v4 specified has)

  preserve-PreserveLogged :
      (s : MulticastSocket U R) (bytes : Bytes) (source : Option UdpAddr) (ttl : ℤ) (w : W)
      → PreserveLogged s bytes source ttl w (preserve wire s bytes source ttl w)
  preserve-PreserveLogged s bytes none ttl w = unchanged (Preserved s bytes none ttl) w refl
  preserve-PreserveLogged s bytes (some source) ttl w = elim (Option-cases (to4 source.ip)) [
    | inl gone ↦
        rw (gone, preserve)
          (unchanged (RawCopies s bytes source ttl) w (inr (λ can. can.v4 gone, refl)))
    | inr (b, got) ↦ elim (Bool-cases (is_unspecified source.ip)) [
      | inl any ↦
          rw (got, any, preserve)
            (unchanged (RawCopies s bytes source ttl) w
              (inr (λ can. let specified = can.specified in cc, refl)))
      | inr specified ↦
          rw (got, specified, preserve)
            (with_raw-PreserveLogged s s.raw_conn bytes source ttl w
              (λ gone. none-ne-some b (sym gone ∙ got)) specified refl)
    ]
  ]

  -- What a call leaves in the log: a setting that failed and an error, or the raw copies and then a plain copy
  -- on each interface, with the given TTL.
  abbrev pub Emits :
      MulticastSocket U R → Bytes → Option UdpAddr → ℤ → ℤ → W → Option (Written W) → Type 0
  Emits s bytes source ttl plain_ttl w none = Panics s bytes source
  Emits s bytes source ttl plain_ttl w (some r) =
      ((log r.world ≡ log w ++ refused ∷ []) × (r.has_error ≡ true))
      ⊎ ((raws : List Attempt) × (log r.world
            ≡ (log w ++ raws) ++ plain_copies (egress s) plain_ttl s.group bytes)
          × Preserved s bytes source ttl raws)

  result_of-world :
      (size : ℕ) (preserved : Bool) (recent : RecentTx) (x : ℕ × Bool × W)
      → (result_of wire size preserved recent x).world ≡ x.2
  result_of-world size preserved recent (sent, bad, w) = ground arith

  plain_after-Emits :
      (s : MulticastSocket U R) (bytes : Bytes) (source : Option UdpAddr) (ttl plain_ttl : ℤ)
      (recent : RecentTx) (w w2 : W) (o : Option (Bool × Bool × W))
      → log w2 ≡ log w
      → ttl_now w2 ≡ plain_ttl
      → PreserveLogged s bytes source ttl w2 o
      → Emits s bytes source ttl plain_ttl w (plain_after wire s bytes recent o)
  plain_after-Emits s bytes source ttl plain_ttl recent w w2 none e t h = h
  plain_after-Emits s bytes source ttl plain_ttl recent w w2 (some (ok, bad, w3)) e t h =
      let (same, (raws, logged, p)) = h in
      let each = write_each wire s bytes (egress s) 0 bad w3 in
      inr (
        raws,
        ap log (result_of-world (length bytes) ok recent each)
            ∙ log-write_each wire rec s bytes (egress s) 0 bad w3
            ∙ rw (logged, e, same, t) refl,
        p,
      )

  set_ttl-log :
      (s : MulticastSocket U R) (ttl : ℤ) (w : W)
      → log (set_ttl wire s ttl w).1 ≡ log w ++ noted (set_ttl wire s ttl w).0
  set_ttl-log s ttl w = elim (Bool-cases (is_positive ttl)) [
    | inl up ↦ rw up (rec.log_ttl s.conn ttl w)
    | inr down ↦ rw down (sym (append-nil (log w)))
  ]

  set_ttl-ttl_now :
      (s : MulticastSocket U R) (ttl : ℤ) (w : W)
      → (set_ttl wire s ttl w).0 ≡ true
      → ttl_now (set_ttl wire s ttl w).1 ≡ (if is_positive ttl then ttl else ttl_now w)
  set_ttl-ttl_now s ttl w h = elim (Bool-cases (is_positive ttl)) [
    | inl up ↦ rw up (rec.ttl_ttl s.conn ttl w (rw up at h))
    | inr down ↦ rw down
  ]

  -- WriteToGroup stops at a deadline or a TTL that cannot be set, with an error and without a write, or
  -- else hands over the raw copies and then the plain ones, to the group: one of each kind on every
  -- egress interface, in order, whichever of them fail. There are raw copies just when there is a raw
  -- connection, the sender is a specified IPv4 address with a 16-bit port and the payload is at most 65507
  -- bytes, unless their deadline cannot be set; they bear the sender and a checksum that udpChecksum gave, with
  -- the TTL of the packet or 1. The plain ones have the TTL of the packet if that is positive, or else
  -- the one that was set before. It panics only where udpChecksum does.
  pub write_to_group-Emits :
      (md5 : Bytes → Bytes) (now : ℕ) (s : MulticastSocket U R) (recent : RecentTx) (bytes : Bytes)
      (source : Option UdpAddr) (ttl : ℤ) (w : W)
      → Emits s bytes source ttl
          (if is_positive ttl then ttl else ttl_now w)
          w
          (write_to_group wire md5 now s recent bytes source ttl w)
  unfolding write_to_group
  write_to_group-Emits md5 now s recent bytes source ttl w =
      let (armed, w1) = wire.set_write_deadline s.conn w in
      let (set, w2) = set_ttl wire s ttl w1 in
      let noted1 = rec.log_deadline s.conn w in
      let noted2 = set_ttl-log s ttl w1 in
      elim (Bool-cases (wire.set_write_deadline s.conn w).0) [
        | inr late ↦ rw (late, write_to_group) (inl (rw late at noted1, refl))
        | inl on_time ↦
            let same1 : log w1 ≡ log w = rw (on_time, append-nil (log w)) at noted1 in
            elim (Bool-cases (set_ttl wire s ttl w1).0) [
              | inr unset ↦
                  rw (on_time, unset, write_to_group)
                    (inl ((rw unset at noted2) ∙ ap (λ l. l ++ refused ∷ []) same1, refl))
              | inl ready ↦
                  let same2 : log w2 ≡ log w =
                    (rw (ready, append-nil (log w1)) at noted2) ∙ same1 in
                  rw (on_time, ready, write_to_group)
                    (plain_after-Emits s bytes source ttl
                      (if is_positive ttl then ttl else ttl_now w) (mark_sent md5 now bytes recent)
                      w w2 (preserve wire s bytes source ttl w2) same2
                      (set_ttl-ttl_now s ttl w1 ready
                        ∙ ap (λ t. if is_positive ttl then ttl else t) (rec.ttl_deadline s.conn w))
                      (preserve-PreserveLogged s bytes source ttl w2))
            ]
      ]
