-- ===== src/Strings/Hex.antt =====
-- encoding/hex: reading an encoding back.
use netns_mcast_relay.Base.{
  ℕ, ◌+◌, ◌-◌, ◌*◌, ◌/◌, ◌%◌, ◌<◌, ◌≡◌, refl, ap, Option, none, some, [], ◌∷◌, Text, Bytes, All,
  arith, if◌then◌else◌, ltb,
}
use netns_mcast_relay.Strings.{encode_hex, hex_digit}

-- The value of a digit, and the bytes of an even number of digits.
abbrev pub digit_value : ℕ → ℕ
digit_value c = if ltb c b'a' then c - b'0' else c - b'a' + 10

abbrev pub cons_to : ℕ → Option Bytes → Option Bytes
cons_to b none = none
cons_to b (some bs) = some (b ∷ bs)

unfoldable pub decode_hex : Text → Option Bytes
decode_hex [] = some []
decode_hex (c ∷ []) = none
decode_hex (c ∷ d ∷ s) = cons_to (digit_value c * 16 + digit_value d) (decode_hex s)

digit_value-hex_digit : (n : ℕ) → n < 16 → digit_value (hex_digit n) ≡ n
digit_value-hex_digit n h = ground arith

pub decode_hex-encode_hex :
    (bs : Bytes) → All (λ b. b < 256) bs → decode_hex (encode_hex bs) ≡ some bs
unfolding decode_hex encode_hex
decode_hex-encode_hex [] a = refl
decode_hex-encode_hex (b ∷ bs) a =
    rw
      (
        digit_value-hex_digit (b / 16) (omega (arith, a.0)),
        digit_value-hex_digit (b % 16) (omega arith),
        decode_hex-encode_hex bs a.1,
      )
      (ap (λ x. some (x ∷ bs)) (omega arith))
