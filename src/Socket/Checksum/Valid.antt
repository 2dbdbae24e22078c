-- ===== src/Socket/Checksum/Valid.antt =====
-- internal/socket/multicast.go: the segment that writeRawUDP sends passes the receiver's check.
use mathlib.Core.Option.{some-injective}
use netns_mcast_relay.Base.{
  ℕ, zero, suc, ◌+◌, ◌%◌, ◌^◌, ◌≤◌, ◌<◌, ◌≡◌, refl, ◌∙◌, Bool, true, false, none, some, [], ◌∷◌,
  ◌++◌, Bytes, length, length-drop, drop, arith, ap, ◌⊎◌, inl, inr, sym, subst, eqb_iff,
  if◌then◌else◌, ◌&&◌,
}
use netns_mcast_relay.Net.{to4}
use netns_mcast_relay.Socket.Checksum.{
  u32, sum_words, sum_addresses, complement, carry_fuel, checksum_of, fold_carries, udp_checksum,
  put_uint16, segment,
}
use netns_mcast_relay.Socket.Checksum.Sums.{
  internet_sum, IsBytes, internet_sum-le, sum_tail-sum_words, Folds-carry_fuel,
}

-- The pseudo-header of RFC 768: the addresses, the protocol 17 and the length of the segment.
abbrev pub pseudo_header : Bytes → Bytes → ℕ → Bytes
pseudo_header source destination n = source ++ destination ++ 0 ∷ 17 ∷ put_uint16 n

-- What the checksum adds up, before the carries.
abbrev total : Bytes → Bytes → Bytes → ℕ
total s d payload = internet_sum (pseudo_header s d (length payload)) + internet_sum payload

-- The checksum fills the sum up to a multiple of 65535 and is never 0.
checksum_of-fills :
    (n : ℕ)
    → n < 2 ^ 32
    → (c : ℕ) × (checksum_of (fold_carries carry_fuel n) ≡ some c)
      × (0 < c)
      × (c ≤ 0xffff)
      × ((n + c) % 65535 ≡ 0)
checksum_of-fills n h =
    let (r, e, le, same, pos) = Folds-carry_fuel n h in
    (complement r, rw e, ground arith, ground arith, ground arith)

sum_addresses-sum :
    (a b c d a' b' c' d' : ℕ) (n : ℕ)
    → IsBytes (a ∷ b ∷ c ∷ d ∷ a' ∷ b' ∷ c' ∷ d' ∷ [])
    → n < 65536
    → u32 (u32 (sum_addresses (a ∷ b ∷ c ∷ d ∷ []) (a' ∷ b' ∷ c' ∷ d' ∷ []) + 17) + u32 n)
      ≡ internet_sum (pseudo_header (a ∷ b ∷ c ∷ d ∷ []) (a' ∷ b' ∷ c' ∷ d' ∷ []) n)
unfolding sum_words internet_sum
sum_addresses-sum a b c d a' b' c' d' n h lt = omega arith

and_left : (a b : Bool) → (a && b) ≡ true → a ≡ true
and_left a b h = ground arith

IsFour : Bytes → Type 0
IsFour b = (length b ≡ 4) × IsBytes b

drop-IsBytes : (n : ℕ) (b : Bytes) → IsBytes b → IsBytes (drop n b)
drop-IsBytes zero b h = h
drop-IsBytes (suc n) [] h = h
drop-IsBytes (suc n) (x ∷ b) h = drop-IsBytes n b h.1

which :
    (b b' : Bool) (x y s : Bytes)
    → (if b then some x else if b' then some y else none) ≡ some s
    → ((b ≡ true) × (s ≡ x)) ⊎ ((b' ≡ true) × (s ≡ y))
which true b' x y s e = inl (refl, sym (some-injective _ _ e))
which false true x y s e = inr (refl, sym (some-injective _ _ e))
which false false x y s e = cc

to4-IsFour : (ip s : Bytes) → to4 ip ≡ some s → IsBytes ip → IsFour s
unfolding to4 IsFour
to4-IsFour ip s e h = elim (which _ _ ip (drop 12 ip) s e) [
  | inl (four, same) ↦ rw same ((eqb_iff _ _).0 four, h)
  | inr (mapped, same) ↦ rw same (
    omega (arith, length-drop 12 ip, (eqb_iff (length ip) 16).0 (and_left _ _ mapped)),
    drop-IsBytes 12 ip h,
  )
]

-- The checksum of a segment that fits into an IP packet.
checksum-fills :
    (a b c d a' b' c' d' : ℕ) (payload : Bytes)
    → IsBytes (a ∷ b ∷ c ∷ d ∷ a' ∷ b' ∷ c' ∷ d' ∷ [])
    → IsBytes payload
    → length payload ≤ 65515
    → (k : ℕ) × (udp_checksum (a ∷ b ∷ c ∷ d ∷ []) (a' ∷ b' ∷ c' ∷ d' ∷ []) payload ≡ some k)
      × (0 < k)
      × (k ≤ 0xffff)
      × ((total (a ∷ b ∷ c ∷ d ∷ []) (a' ∷ b' ∷ c' ∷ d' ∷ []) payload + k) % 65535 ≡ 0)
unfolding udp_checksum to4
checksum-fills a b c d a' b' c' d' payload h hp le =
    let s = a ∷ b ∷ c ∷ d ∷ [] in
    let t = a' ∷ b' ∷ c' ∷ d' ∷ [] in
    let bound : total s t payload < 2 ^ 32 =
      unfold internet_sum in (omega (arith, internet_sum-le payload hp)) in
    rw
      (
        sum_addresses-sum a b c d a' b' c' d' (length payload) h (omega arith),
        sum_tail-sum_words (internet_sum (pseudo_header s t (length payload))) payload hp bound,
      )
      (checksum_of-fills (total s t payload) bound)

four_bytes : (s : Bytes) → IsFour s → IsBytes s
unfolding IsFour
four_bytes s h = h.1

four : (s : Bytes) → IsFour s → (a : ℕ) × (b : ℕ) × (c : ℕ) × (d : ℕ) × (s ≡ a ∷ b ∷ c ∷ d ∷ [])
unfolding IsFour
four (a ∷ b ∷ c ∷ d ∷ []) h = (a, b, c, d, refl)
four _ h = absurd (omega (arith, h.0))

IsBytes-append : (b b' : Bytes) → IsBytes b → IsBytes b' → IsBytes (b ++ b')
IsBytes-append [] b' h h' = h'
IsBytes-append (x ∷ b) b' h h' = (h.0, IsBytes-append b b' h.1 h')

put_uint16-IsBytes : (n : ℕ) → IsBytes (put_uint16 n)
put_uint16-IsBytes n = omega arith

segment-IsBytes : (sp gp k : ℕ) (bytes : Bytes) → IsBytes bytes → IsBytes (segment sp gp k bytes)
segment-IsBytes sp gp k bytes h =
    IsBytes-append (put_uint16 sp)
      (put_uint16 gp ++ put_uint16 (8 + length bytes) ++ put_uint16 k ++ bytes)
      (put_uint16-IsBytes sp)
      (IsBytes-append (put_uint16 gp) (put_uint16 (8 + length bytes) ++ put_uint16 k ++ bytes)
        (put_uint16-IsBytes gp)
        (IsBytes-append (put_uint16 (8 + length bytes)) (put_uint16 k ++ bytes)
          (put_uint16-IsBytes (8 + length bytes))
          (IsBytes-append (put_uint16 k) bytes (put_uint16-IsBytes k) h)))

-- Putting the checksum into its field, which was zero, adds it to the sum.
internet_sum-segment :
    (a b c d a' b' c' d' sp gp k : ℕ) (bytes : Bytes)
    → k ≤ 0xffff
    → internet_sum (
        pseudo_header (a ∷ b ∷ c ∷ d ∷ []) (a' ∷ b' ∷ c' ∷ d' ∷ []) (8 + length bytes)
        ++ segment sp gp k bytes)
      ≡ total (a ∷ b ∷ c ∷ d ∷ []) (a' ∷ b' ∷ c' ∷ d' ∷ []) (segment sp gp 0 bytes) + k
unfolding internet_sum
internet_sum-segment a b c d a' b' c' d' sp gp k bytes le = omega arith

udp_checksum-to4 :
    (source destination s t payload : Bytes)
    → to4 source ≡ to4 s
    → to4 destination ≡ to4 t
    → udp_checksum source destination payload ≡ udp_checksum s t payload
unfolding udp_checksum
udp_checksum-to4 source destination s t payload e e' = rw (e, e')

to4_four : (a b c d : ℕ) → to4 (a ∷ b ∷ c ∷ d ∷ []) ≡ some (a ∷ b ∷ c ∷ d ∷ [])
unfolding to4
to4_four a b c d = refl

-- The segment that writeRawUDP sends, checksum included, passes the receiver's check: together with
-- its pseudo-header it sums up to a multiple of 65535, and the checksum is never 0, which would say
-- that there is none. The data is what the code accepts, at most 65507 bytes, and both addresses are
-- IPv4 addresses; then udpChecksum neither panics nor loops.
pub udp_checksum-segment :
    (source destination s t : Bytes) (sp gp : ℕ) (bytes : Bytes)
    → to4 source ≡ some s
    → to4 destination ≡ some t
    → IsBytes source
    → IsBytes destination
    → IsBytes bytes
    → length bytes ≤ 65507
    → (k : ℕ) × (udp_checksum source destination (segment sp gp 0 bytes) ≡ some k)
      × (0 < k)
      × (k ≤ 0xffff)
      × (internet_sum (pseudo_header s t (8 + length bytes) ++ segment sp gp k bytes) % 65535 ≡ 0)
udp_checksum-segment source destination s t sp gp bytes es et hs ht hb le =
    let fs = to4-IsFour source s es hs in
    let ft = to4-IsFour destination t et ht in
    let (a, b, c, d, e) = four s fs in
    let (a', b', c', d', e') = four t ft in
    let (k, found, pos, small, fills) =
      checksum-fills a b c d a' b' c' d' (segment sp gp 0 bytes)
        (IsBytes-append (a ∷ b ∷ c ∷ d ∷ []) (a' ∷ b' ∷ c' ∷ d' ∷ [])
          (subst IsBytes e (four_bytes s fs)) (subst IsBytes e' (four_bytes t ft)))
        (segment-IsBytes sp gp 0 bytes hb) (omega arith) in
    (
      k,
      udp_checksum-to4 source destination _ _ _ (es ∙ ap some e ∙ sym (to4_four a b c d))
            (et ∙ ap some e' ∙ sym (to4_four a' b' c' d'))
          ∙ found,
      pos,
      small,
      rw (e, e', internet_sum-segment a b c d a' b' c' d' sp gp k bytes small) fills,
    )
