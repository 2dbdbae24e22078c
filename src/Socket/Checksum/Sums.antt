-- ===== src/Socket/Checksum/Sums.antt =====
-- internal/socket/multicast.go: the sums of udpChecksum, without the wrapping.
use native.Mathlib.Decide.{dec_le}
use netns_mcast_relay.Base.{
  ℕ, suc, ◌+◌, ◌-◌, ◌*◌, ◌/◌, ◌%◌, ◌^◌, ◌≤◌, ◌<◌, ◌≡◌, refl, ◌∙◌, some, [], ◌∷◌, Bytes, nat_eq,
  length, arith,
}
use netns_mcast_relay.Socket.Checksum.{u32, sum_words, sum_tail, fold_carries, carry_fuel}

-- The sum of the 16-bit words in big-endian order; an odd last byte is followed by a zero byte.
unfoldable pub internet_sum : Bytes → ℕ
internet_sum [] = 0
internet_sum (b ∷ []) = b * 256
internet_sum (hi ∷ lo ∷ rest) = (hi * 256 + lo) + internet_sum rest

abbrev pub IsBytes : Bytes → Type 0
IsBytes [] = Unit
IsBytes (b ∷ bs) = (b < 256) × IsBytes bs

pub internet_sum-le : (b : Bytes) → IsBytes b → internet_sum b * 2 ≤ 65535 * (length b + 1)
unfolding internet_sum
internet_sum-le [] h = omega arith
internet_sum-le (b ∷ []) h = omega arith
internet_sum-le (hi ∷ lo ∷ rest) h = omega (arith, internet_sum-le rest h.1.1)

sum_tail-cons_cons :
    (sum hi lo : ℕ) (rest : Bytes) → sum_tail sum (hi ∷ lo ∷ rest) ≡ sum_tail sum rest
unfolding sum_tail
sum_tail-cons_cons sum hi lo [] = refl
sum_tail-cons_cons sum hi lo (x ∷ xs) =
    let e : length (hi ∷ lo ∷ x ∷ xs) - 1 ≡ suc (suc (length xs)) = omega arith in
    let e' : length (x ∷ xs) - 1 ≡ length xs = omega arith in
    let parity : length (hi ∷ lo ∷ x ∷ xs) % 2 ≡ length (x ∷ xs) % 2 = omega arith in
    rw (e, e', parity)

-- While nothing overflows, the words and the odd byte add up to the sum.
pub sum_tail-sum_words :
    (sum : ℕ) (b : Bytes)
    → IsBytes b
    → sum + internet_sum b < 2 ^ 32
    → sum_tail (sum_words sum b) b ≡ sum + internet_sum b
unfolding sum_words internet_sum
sum_tail-sum_words sum [] h lt = unfold sum_tail in (omega arith)
sum_tail-sum_words sum (b ∷ []) h lt = unfold sum_tail in (omega arith)
sum_tail-sum_words sum (hi ∷ lo ∷ rest) h lt =
    let wrap : u32 (sum + (hi * 256 + lo)) ≡ sum + (hi * 256 + lo) = omega arith in
    sum_tail-cons_cons _ hi lo rest
    ∙ omega (
      arith,
      wrap,
      sum_tail-sum_words (u32 (sum + (hi * 256 + lo))) rest h.1.1 (omega (arith, wrap)),
    )

-- The loop ends with a number of 16 bits, the same modulo 65535, and 0 only for 0.
abbrev pub Folds : ℕ → ℕ → Type 0
Folds fuel sum =
    (r : ℕ) × (fold_carries fuel sum ≡ some r)
    × (r ≤ 0xffff)
    × (r % 65535 ≡ sum % 65535)
    × (0 < sum → 0 < r)

Folds-small : (fuel sum : ℕ) → sum ≤ 0xffff → Folds (suc fuel) sum
unfolding fold_carries
Folds-small fuel sum h = (sum, ground arith, h, refl, λ k. k)

abbrev carried : ℕ → ℕ
carried sum = u32 (sum % 2 ^ 16 + sum / 2 ^ 16)

Folds-suc :
    (fuel sum : ℕ) → sum < 2 ^ 32 → 0xffff < sum → Folds fuel (carried sum) → Folds (suc fuel) sum
unfolding fold_carries
Folds-suc fuel sum h big (r, e, le, same, pos) =
    (r, ground arith, le, omega arith, λ k. pos (omega arith))

-- Three rounds are enough for any sum of 32 bits.
pub Folds-carry_fuel : (sum : ℕ) → sum < 2 ^ 32 → Folds carry_fuel sum
Folds-carry_fuel sum h = elim (dec_le sum 0xffff) [
  | yes a ↦ Folds-small 2 sum a
  | no a ↦ Folds-suc 2 sum h (omega arith) (elim (dec_le (carried sum) 0xffff) [
    | yes b ↦ Folds-small 1 (carried sum) b
    | no b ↦
        Folds-suc 1 (carried sum) (omega arith) (omega arith)
          (Folds-small 0 (carried (carried sum)) (omega arith))
  ])
]
