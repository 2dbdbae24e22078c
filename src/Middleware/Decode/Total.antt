-- ===== src/Middleware/Decode/Total.antt =====
-- internal/middleware/packet_decode.go: the fields of a start line, and the preview.
use mathlib.Core.List.{reverse, reverse-cons}
use netns_mcast_relay.Base.{
  ℕ, zero, suc, ◌<◌, ◌≡◌, ◌≢◌, refl, ap, Bool, true, false, not, ◌||◌, Bool-cases, inl, inr, Option,
  none, some, List, [], ◌∷◌, ◌++◌, Text, Bytes, ◌==◌, text_eq, Result, done, fails, take, All, keep,
  arith, text_beq_iff,
}
use netns_mcast_relay.Net.{UdpAddr}
use netns_mcast_relay.Paths.{is_space, trim_left, trim_space, add_to_first}
use netns_mcast_relay.Strings.{split_on, fields}
use netns_mcast_relay.Strings.Hex.{decode_hex, decode_hex-encode_hex}
use netns_mcast_relay.Middleware.{Packet}
use netns_mcast_relay.Middleware.Decode.{
  Attr, Message, bytes_or_nil, hex_preview, hex_preview_bytes, start_attr, attrs_with, decode_lines,
  decode_ssdp, is_mdns, is_ssdp, decode_group, with_group, ssdp_attrs, decode_packet,
  valid_ssdp_start_line, parse_headers,
}

-- Some code point is no space.
abbrev has_ink : Text → Bool
has_ink [] = false
has_ink (c ∷ s) = not (is_space c) || has_ink s

add_to_first-cons :
    (c : ℕ) (parts : List Text) → keep (λ part. not (part == [])) (add_to_first c parts) ≢ []
add_to_first-cons c [] = λ e. cc
add_to_first-cons c (part ∷ parts) = λ e. cc

fields-has_ink : (s : Text) → has_ink s ≡ true → fields s ≢ []
unfolding fields split_on
fields-has_ink [] h = cc
fields-has_ink (c ∷ s) h = elim (Bool-cases (is_space c)) [
  | inl space ↦ rw space (fields-has_ink s (rw space at h))
  | inr ink ↦ rw ink (add_to_first-cons c (split_on is_space s))
]

trim_left-has_ink : (s : Text) → trim_left s ≢ [] → has_ink (trim_left s) ≡ true
unfolding trim_left
trim_left-has_ink [] h = absurd (h refl)
trim_left-has_ink (c ∷ s) h = elim (Bool-cases (is_space c)) [
  | inl space ↦ rw space (trim_left-has_ink s (rw space at h))
  | inr ink ↦ rw (ink, ink) refl
]

has_ink-append : (s t : Text) → has_ink (s ++ t) ≡ (has_ink s || has_ink t)
has_ink-append [] t = refl
has_ink-append (c ∷ s) t = ground (arith, has_ink-append s t)

has_ink-reverse : (s : Text) → has_ink s ≡ true → has_ink (reverse s) ≡ true
has_ink-reverse [] h = cc
has_ink-reverse (c ∷ s) h =
    rw (reverse-cons c s, has_ink-append (reverse s) (c ∷ [])) (ground (arith, has_ink-reverse s))

trim_space-has_ink : (s : Text) → trim_space s ≢ [] → has_ink (trim_space s) ≡ true
unfolding trim_space
trim_space-has_ink s h =
    let inner = reverse (trim_left s) in
    has_ink-reverse (trim_left inner) (trim_left-has_ink inner (λ e. h (ap reverse e)))

module _ (unpack : Bytes → Result Text Message) (text_of : Bytes → Text) (to_upper : ℕ → ℕ)
    (quote : Text → Text) where
  start_attr-some :
      (line : Text) (parts : List Text)
      → parts ≢ []
      → start_attr unpack text_of to_upper quote line parts ≢ none
  unfolding start_attr
  start_attr-some line [] h = absurd (h refl)
  start_attr-some line (part ∷ parts) h = λ e. cc

  attrs_with-some : (attr : Option Attr) (r : _) → attr ≢ none → attrs_with attr r ≢ none
  attrs_with-some none r h = absurd (h refl)
  attrs_with-some (some attr) (fails e) h = λ e. cc
  attrs_with-some (some attr) (done headers) h = λ e. cc

  decode_lines-some : (lines : List Text) → decode_lines unpack text_of to_upper quote lines ≢ none
  unfolding decode_lines
  decode_lines-some [] = λ e. cc
  decode_lines-some (line ∷ lines) = elim (Bool-cases (trim_space line == [])) [
    | inl missing ↦ rw missing (λ e. cc)
    | inr there ↦
        elim (Bool-cases
          (not (valid_ssdp_start_line unpack text_of to_upper quote (trim_space line)))) [
            | inl invalid ↦ rw (there, invalid) (λ e. cc)
            | inr valid ↦
                rw (there, valid)
                  (attrs_with-some
                    (start_attr unpack text_of to_upper quote (trim_space line)
                      (fields (trim_space line)))
                    (parse_headers lines [])
                    (start_attr-some (trim_space line) (fields (trim_space line)) (
                      fields-has_ink (trim_space line) (
                        trim_space-has_ink line
                          (λ e. cc ((text_beq_iff (trim_space line) []).1 e))))))
          ]
  ]

  ssdp_attrs-some :
      (payload : Option Bytes) (r : _)
      → r ≢ none
      → ssdp_attrs unpack text_of to_upper quote payload r ≢ none
  ssdp_attrs-some payload none h = absurd (h refl)
  ssdp_attrs-some payload (some r) h = λ e. cc

  decode_group-some :
      (group : UdpAddr) (payload : Option Bytes)
      → decode_group unpack text_of to_upper quote group payload ≢ none
  unfolding decode_ssdp
  decode_group-some group payload = elim (Bool-cases (is_mdns group)) [
    | inl mdns ↦ rw mdns (λ e. cc)
    | inr other ↦ elim (Bool-cases (is_ssdp group)) [
      | inl ssdp ↦
          rw (other, ssdp)
            (ssdp_attrs-some payload (decode_ssdp unpack text_of to_upper quote payload)
              (decode_lines-some _))
      | inr unknown ↦ rw (other, unknown) (λ e. cc)
    ]
  ]

  -- decodePacket returns attributes for every packet and for nil: no index into the fields of a start
  -- line is out of range, whatever the payload, the DNS library and the case mapping give.
  pub decode_packet-some :
      (pkt : Option Packet) → decode_packet unpack text_of to_upper quote pkt ≢ none
  unfolding decode_packet
  decode_packet-some none = λ e. cc
  decode_packet-some (some pkt) = go pkt.group
    where
      go :
          (group : Option UdpAddr)
          → with_group unpack text_of to_upper quote group pkt.payload ≢ none
      go none = λ e. cc
      go (some group) = decode_group-some group pkt.payload

take-All : (n : ℕ) (bs : Bytes) → All (λ b. b < 256) bs → All (λ b. b < 256) (take n bs)
take-All zero bs a = tt
take-All (suc n) [] a = tt
take-All (suc n) (b ∷ bs) a = (a.0, take-All n bs a.1)

-- The preview can be read back to the first 64 bytes of the payload, or all of a shorter one.
pub decode_hex-hex_preview :
    (payload : Option Bytes)
    → All (λ b. b < 256) (bytes_or_nil payload)
    → decode_hex (hex_preview payload) ≡ some (take hex_preview_bytes (bytes_or_nil payload))
unfolding hex_preview
decode_hex-hex_preview payload a =
    decode_hex-encode_hex (take hex_preview_bytes (bytes_or_nil payload))
      (take-All hex_preview_bytes (bytes_or_nil payload) a)
