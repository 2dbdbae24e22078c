-- ===== src/Config/Mode.antt =====
-- internal/config/config.go: what parseSocketMode accepts.
use mathlib.Core.List.{foldl}
use netns_mcast_relay.Base.{
  ℕ, ◌+◌, ◌-◌, ◌*◌, ◌≤◌, ◌≡◌, ◌≢◌, ◌↔◌, refl, sym, ap, ◌∙◌, Option, none, some, [], ◌∷◌, Text,
  arith, All, done,
}
use netns_mcast_relay.Config.{parse_octal, mode_result, parse_socket_mode}

-- The number that octal digits spell behind `n`, with no bound.
abbrev pub octal_value : ℕ → Text → ℕ
octal_value = foldl (λ n c. n * 8 + (c - b'0'))

abbrev pub IsOctal : ℕ → Type 0
IsOctal c = (b'0' ≤ c) × (c ≤ b'7')

octal_value-ge : (s : Text) (n : ℕ) → n ≤ octal_value n s
octal_value-ge [] n = omega arith
octal_value-ge (c ∷ s) n = omega (arith, octal_value-ge s (n * 8 + (c - b'0')))

parse_octal_sound :
    (s : Text) (n m : ℕ)
    → n ≤ 511
    → parse_octal n s ≡ some m
    → All IsOctal s × (m ≡ octal_value n s) × (m ≤ 511)
unfolding parse_octal
parse_octal_sound [] n m fits h = ground arith
parse_octal_sound (c ∷ s) n m fits h = ground (arith, parse_octal_sound s (n * 8 + (c - b'0')) m)

parse_octal_complete :
    (s : Text) (n : ℕ)
    → All IsOctal s
    → octal_value n s ≤ 511
    → parse_octal n s ≡ some (octal_value n s)
unfolding parse_octal
parse_octal_complete [] n all fits = refl
parse_octal_complete (c ∷ s) n all fits =
    let m = n * 8 + (c - b'0') in
    ground (arith, parse_octal_complete s m all.1 fits, octal_value-ge s m)

-- One or more octal digits that spell the mode, which lies between 1 and 0o777.
abbrev pub Spells : Text → ℕ → Type 0
Spells value mode =
    (value ≢ []) × All IsOctal value × (mode ≡ octal_value 0 value) × (1 ≤ mode) × (mode ≤ 511)

mode_result_iff :
    (value : Text) (o : Option ℕ) (mode : ℕ)
    → (mode_result value o ≡ done mode) ↔ ((o ≡ some mode) × (1 ≤ mode) × (mode ≤ 511))
mode_result_iff value none mode = ground arith
mode_result_iff value (some n) mode = ground arith

-- parseSocketMode accepts exactly the texts of one or more octal digits that spell a number from 1 to
-- 0o777, and gives that number.
pub parse_socket_mode_iff :
    (value : Text) (mode : ℕ) → (parse_socket_mode value ≡ done mode) ↔ Spells value mode
unfolding parse_socket_mode
parse_socket_mode_iff [] mode = (λ h. cc, λ h. absurd (h.0 refl))
parse_socket_mode_iff (c ∷ s) mode = (to, from)
  where
    to : mode_result (c ∷ s) (parse_octal 0 (c ∷ s)) ≡ done mode → Spells (c ∷ s) mode
    to h =
        let (found, low, high) = (mode_result_iff (c ∷ s) (parse_octal 0 (c ∷ s)) mode).0 h in
        let (all, exact, _) = parse_octal_sound (c ∷ s) 0 mode (omega arith) found in
        (λ e. cc, all, exact, low, high)

    from : Spells (c ∷ s) mode → mode_result (c ∷ s) (parse_octal 0 (c ∷ s)) ≡ done mode
    from (_, all, e, lo, hi) =
        let got = parse_octal_complete (c ∷ s) 0 all (omega arith) in
        (mode_result_iff (c ∷ s) (parse_octal 0 (c ∷ s)) mode).1
          (got ∙ ap (λ n. some n) (sym e), lo, hi)
