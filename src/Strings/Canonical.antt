-- ===== src/Strings/Canonical.antt =====
-- net/textproto: header names that differ in the case of their letters only.
use mathlib.Core.List.{append-nil, append_assoc}
use netns_mcast_relay.Base.{
  ℕ, ◌+◌, ◌≡◌, ◌↔◌, refl, sym, ap, ◌∙◌, Bool, true, false, Bool-cases, inl, inr, ◌&&◌, List, [],
  ◌∷◌, ◌++◌, map, Text, ◌==◌, nat_eq, text_eq, text_beq, text_beq_iff, arith, if◌then◌else◌, lookup,
  lookup-insert,
}
use netns_mcast_relay.Strings.{
  is_upper, is_lower, is_token, all_tokens, set_case, capitalize, canonical_key, MimeHeader,
  values_of, first_value, add_header, get_header,
}

abbrev pub to_lower : ℕ → ℕ
to_lower c = if is_upper c then c + 32 else c

-- The names of headers agree: two tokens but for the case of their letters, others exactly.
abbrev pub same_name : Text → Text → Bool
same_name s t = if all_tokens s && all_tokens t then map to_lower s == map to_lower t else s == t

map-to_lower-capitalize : (u : Bool) (s : Text) → map to_lower (capitalize u s) ≡ map to_lower s
unfolding capitalize
map-to_lower-capitalize u [] = refl
map-to_lower-capitalize u (c ∷ s) = ground (arith, map-to_lower-capitalize (c == b'-') s)

capitalize-map-to_lower : (u : Bool) (s : Text) → capitalize u (map to_lower s) ≡ capitalize u s
unfolding capitalize
capitalize-map-to_lower u [] = refl
capitalize-map-to_lower u (c ∷ s) = ground (arith, capitalize-map-to_lower (c == b'-') s)

is_token-set_case : (u : Bool) (c : ℕ) → is_token c ≡ true → is_token (set_case u c) ≡ true
is_token-set_case true c h = elim (Bool-cases (is_lower c)) [
  | inl low ↦ ground arith
  | inr other ↦ rw other h
]
is_token-set_case false c h = elim (Bool-cases (is_upper c)) [
  | inl up ↦ ground arith
  | inr other ↦ rw other h
]

all_tokens-capitalize :
    (u : Bool) (s : Text) → all_tokens s ≡ true → all_tokens (capitalize u s) ≡ true
unfolding capitalize
all_tokens-capitalize u [] h = refl
all_tokens-capitalize u (c ∷ s) h = elim (Bool-cases (is_token c)) [
  | inl ok ↦ rw (is_token-set_case u c ok) (all_tokens-capitalize (c == b'-') s (rw ok at h))
  | inr bad ↦ cc (rw bad at h)
]

map-to_lower_iff :
    (u : Bool) (s t : Text) → (capitalize u s ≡ capitalize u t) ↔ (map to_lower s ≡ map to_lower t)
map-to_lower_iff u s t = (
  λ e. sym (map-to_lower-capitalize u s) ∙ ap (map to_lower) e ∙ map-to_lower-capitalize u t,
  λ e. sym (capitalize-map-to_lower u s) ∙ ap (capitalize u) e ∙ capitalize-map-to_lower u t,
)

same_bool : (a b : Bool) → (a ≡ true → b ≡ true) → (b ≡ true → a ≡ true) → a ≡ b
same_bool true b f g = sym (f refl)
same_bool false true f g = g refl
same_bool false false f g = refl

token_or_not : (s t : Text) → all_tokens s ≡ true → all_tokens t ≡ false → text_beq s t ≡ false
token_or_not s t h k = ground (arith, text_beq_iff s t)

-- Two names have one canonical key exactly when they agree.
pub canonical_key-same_name : (s t : Text) → (canonical_key s == canonical_key t) ≡ same_name s t
unfolding canonical_key
canonical_key-same_name s t = elim (Bool-cases (all_tokens s)) [
  | inl a ↦ elim (Bool-cases (all_tokens t)) [
    | inl b ↦
        rw (a, b)
          (same_bool _ _
            (λ e. (text_beq_iff _ _).1 ((map-to_lower_iff true s t).0 ((text_beq_iff _ _).0 e)))
            (λ e. (text_beq_iff _ _).1 ((map-to_lower_iff true s t).1 ((text_beq_iff _ _).0 e))))
    | inr b ↦
        rw (a, b)
          (token_or_not (capitalize true s) t (all_tokens-capitalize true s a) b
            ∙ sym (token_or_not s t a b))
  ]
  | inr a ↦ elim (Bool-cases (all_tokens t)) [
    | inl b ↦
        rw (a, b)
          (same_bool _ _
            (λ e. cc (
              ap all_tokens ((text_beq_iff s (capitalize true t)).0 e),
              all_tokens-capitalize true t b,
            ))
            (λ e. cc (ap all_tokens ((text_beq_iff s t).0 e))))
    | inr b ↦ rw (a, b) refl
  ]
]

-- A header section of (name, value) pairs, and the values that it has for a name.
unfoldable pub add_all : List (Text × Text) → MimeHeader → MimeHeader
add_all [] headers = headers
add_all ((name, value) ∷ pairs) headers = add_all pairs (add_header name value headers)

abbrev pub values_named : Text → List (Text × Text) → List Text
values_named name [] = []
values_named name ((n, value) ∷ pairs) =
    if same_name n name then value ∷ values_named name pairs else values_named name pairs

abbrev stored : Text → MimeHeader → List Text
stored name headers = values_of (lookup (canonical_key name) headers)

stored-add_header :
    (name n value : Text) (headers : MimeHeader)
    → stored name (add_header n value headers)
      ≡ (if same_name n name then stored name headers ++ value ∷ [] else stored name headers)
unfolding add_header
stored-add_header name n value headers = ground (
  arith,
  lookup-insert (canonical_key n) (canonical_key name) (stored n headers ++ value ∷ []) headers,
  canonical_key-same_name n name,
  text_beq_iff (canonical_key n) (canonical_key name),
)

stored-add_all :
    (name : Text) (pairs : List (Text × Text)) (headers : MimeHeader)
    → stored name (add_all pairs headers) ≡ stored name headers ++ values_named name pairs
unfolding add_all
stored-add_all name [] headers = sym (append-nil (stored name headers))
stored-add_all name ((n, value) ∷ pairs) headers = elim (Bool-cases (same_name n name)) [
  | inl same ↦ rw same (
      stored-add_all name pairs (add_header n value headers)
      ∙ rw (stored-add_header name n value headers, same)
          (append_assoc (stored name headers) (value ∷ []) _))
  | inr other ↦ rw other (
      stored-add_all name pairs (add_header n value headers)
      ∙ rw (stored-add_header name n value headers, other) refl)
]

-- Get gives the first value that a header of that name was added with.
pub get_header-add_all :
    (name : Text) (pairs : List (Text × Text))
    → get_header name (add_all pairs []) ≡ first_value (values_named name pairs)
unfolding get_header lookup
get_header-add_all name pairs = ap first_value (stored-add_all name pairs [])
