-- ===== src/Paths/Clean.antt =====
-- filepath.Clean on absolute paths, and strings.TrimSpace and strings.Contains: what the callers use.
use mathlib.Core.List.{reverse_aux, reverse-append, reverse-reverse}
use netns_mcast_relay.Base.{
  ℕ, ◌≡◌, ◌≢◌, refl, Bool, true, false, ◌||◌, List, [], ◌∷◌, ◌++◌, Text, ◌==◌, nat_eq, text_eq,
  text_beq_iff, arith, All, Bool-cases, inl, inr,
}
use netns_mcast_relay.Paths.{
  is_space, trim_space, contains, add_to_first, split_slash, dot, dot_dot, go_up, clean_part,
  clean_parts, is_abs, join, rooted_text, clean,
}

abbrev pub NoSlash : Text → Type 0
NoSlash [] = Unit
NoSlash (c ∷ s) = (c ≢ b'/') × NoSlash s

-- A part that names an entry of a directory.
abbrev pub IsName : Text → Type 0
IsName part = (part ≢ []) × (part ≢ dot) × (part ≢ dot_dot) × NoSlash part

pub split_slash-append :
    (part rest : Text) → NoSlash part → split_slash (part ++ b'/' ∷ rest) ≡ part ∷ split_slash rest
unfolding split_slash
split_slash-append [] rest h = refl
split_slash-append (c ∷ part) rest h = ground (arith, split_slash-append part rest h.1)

pub split_slash_one : (part : Text) → NoSlash part → split_slash part ≡ part ∷ []
unfolding split_slash
split_slash_one [] h = refl
split_slash_one (c ∷ part) h = ground (arith, split_slash_one part h.1)

add_to_first-All :
    (c : ℕ) (parts : List Text) → c ≢ b'/' → All NoSlash parts → All NoSlash (add_to_first c parts)
add_to_first-All c [] h a = ((h, tt), tt)
add_to_first-All c (part ∷ parts) h a = ((h, a.0), a.1)

split_slash-NoSlash : (s : Text) → All NoSlash (split_slash s)
unfolding split_slash
split_slash-NoSlash [] = (tt, tt)
split_slash-NoSlash (c ∷ s) = elim (Bool-cases (c == b'/')) [
  | inl e ↦ rw e (tt, split_slash-NoSlash s)
  | inr e ↦ rw e (add_to_first-All c (split_slash s) (ground arith) (split_slash-NoSlash s))
]

go_up-All : (stack : List Text) → All IsName stack → All IsName (go_up true stack)
go_up-All [] a = tt
go_up-All (top ∷ stack) a = elim (Bool-cases (top == dot_dot)) [
  | inl e ↦ absurd (a.0.2 ((text_beq_iff top dot_dot).0 e))
  | inr e ↦ rw e a.1
]

clean_part-All :
    (stack : List Text) (part : Text)
    → All IsName stack
    → NoSlash part
    → All IsName (clean_part true stack part)
unfolding clean_part
clean_part-All stack part a h = elim (Bool-cases (part == [] || part == dot)) [
  | inl e ↦ rw e a
  | inr e ↦ rw e (elim (Bool-cases (part == dot_dot)) [
    | inl u ↦ rw u (go_up-All stack a)
    | inr u ↦ rw u (
      (
        ground (arith, text_beq_iff part []),
        ground (arith, text_beq_iff part dot),
        ground (arith, text_beq_iff part dot_dot),
        h,
      ),
      a,
    )
  ])
]

reverse_aux-All :
    (xs ys : List Text) → All IsName xs → All IsName ys → All IsName (reverse_aux xs ys)
reverse_aux-All [] ys a b = b
reverse_aux-All (x ∷ xs) ys a b = reverse_aux-All xs (x ∷ ys) a.1 (a.0, b)

clean_parts-All :
    (stack parts : List Text)
    → All IsName stack
    → All NoSlash parts
    → All IsName (clean_parts true stack parts)
unfolding clean_parts
clean_parts-All stack [] a h = reverse_aux-All stack [] a tt
clean_parts-All stack (part ∷ parts) a h =
    clean_parts-All (clean_part true stack part) parts (clean_part-All stack part a h.0) h.1

-- What is left of an absolute path are names: no part is empty, `.` or `..`.
pub clean_parts-split_slash : (s : Text) → All IsName (clean_parts true [] (split_slash s))
clean_parts-split_slash s = clean_parts-All [] (split_slash s) tt (split_slash-NoSlash s)

-- Of any path, what is left are parts that are not empty.
abbrev pub IsPart : Text → Type 0
IsPart part = (part ≢ []) × NoSlash part

go_up-IsPart :
    (rooted : Bool) (stack : List Text) → All IsPart stack → All IsPart (go_up rooted stack)
go_up-IsPart true [] a = tt
go_up-IsPart false [] a = (((λ e. cc), omega arith), tt)
go_up-IsPart rooted (top ∷ stack) a = elim (Bool-cases (top == dot_dot)) [
  | inl e ↦ rw e (((λ e. cc), omega arith), a)
  | inr e ↦ rw e a.1
]

clean_part-IsPart :
    (rooted : Bool) (stack : List Text) (part : Text)
    → All IsPart stack
    → NoSlash part
    → All IsPart (clean_part rooted stack part)
unfolding clean_part
clean_part-IsPart rooted stack part a h = elim (Bool-cases (part == [] || part == dot)) [
  | inl e ↦ rw e a
  | inr e ↦ rw e (elim (Bool-cases (part == dot_dot)) [
    | inl u ↦ rw u (go_up-IsPart rooted stack a)
    | inr u ↦ rw u ((ground (arith, text_beq_iff part []), h), a)
  ])
]

reverse_aux-IsPart :
    (xs ys : List Text) → All IsPart xs → All IsPart ys → All IsPart (reverse_aux xs ys)
reverse_aux-IsPart [] ys a b = b
reverse_aux-IsPart (x ∷ xs) ys a b = reverse_aux-IsPart xs (x ∷ ys) a.1 (a.0, b)

clean_parts-IsPart :
    (rooted : Bool) (stack parts : List Text)
    → All IsPart stack
    → All NoSlash parts
    → All IsPart (clean_parts rooted stack parts)
unfolding clean_parts
clean_parts-IsPart rooted stack [] a h = reverse_aux-IsPart stack [] a tt
clean_parts-IsPart rooted stack (part ∷ parts) a h =
    clean_parts-IsPart rooted (clean_part rooted stack part) parts
      (clean_part-IsPart rooted stack part a h.0) h.1

is_abs-join : (parts : List Text) → All IsPart parts → is_abs (join parts) ≡ false
unfolding join
is_abs-join [] a = refl
is_abs-join ([] ∷ parts) a = absurd (a.0.0 refl)
is_abs-join ((c ∷ part) ∷ []) a = ground arith
is_abs-join ((c ∷ part) ∷ next ∷ parts) a = ground arith

is_abs-rooted_text :
    (rooted : Bool) (parts : List Text)
    → All IsPart parts
    → is_abs (rooted_text rooted parts) ≡ rooted
is_abs-rooted_text true parts a = refl
is_abs-rooted_text false [] a = refl
is_abs-rooted_text false (part ∷ parts) a = is_abs-join (part ∷ parts) a

-- Cleaning makes no relative path absolute, and no absolute path relative.
pub is_abs-clean : (s : Text) → is_abs (clean s) ≡ is_abs s
unfolding clean
is_abs-clean s =
    is_abs-rooted_text (is_abs s) _
      (clean_parts-IsPart (is_abs s) [] (split_slash s) tt (split_slash-NoSlash s))

-- A name is pushed.
pub clean_part_name :
    (stack : List Text) (part : Text) → IsName part → clean_part true stack part ≡ part ∷ stack
unfolding clean_part
clean_part_name stack part h =
    ground (arith, text_beq_iff part [], text_beq_iff part dot, text_beq_iff part dot_dot)

-- Nothing is trimmed off a text that neither starts nor ends with a space.
pub trim_space_id :
    (c d : ℕ) (s : Text)
    → is_space c ≡ false
    → is_space d ≡ false
    → trim_space (c ∷ s ++ d ∷ []) ≡ c ∷ s ++ d ∷ []
unfolding trim_space
trim_space_id c d s h k =
    rw (h, reverse-append (c ∷ s) (d ∷ []), k, ← reverse-append (c ∷ s) (d ∷ []))
      (reverse-reverse (c ∷ s ++ d ∷ []))

pub contains-append : (s t u : Text) → contains t u ≡ true → contains (s ++ t) u ≡ true
unfolding contains
contains-append [] t u h = h
contains-append (c ∷ s) t u h = ground (arith, contains-append s t u h)
