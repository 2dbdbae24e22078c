-- ===== src/Strings.antt =====
-- What the program uses of Go's packages strings, encoding/hex and net/textproto besides Paths. A text
-- is a list of code points.
pub mod Canonical
pub mod Hex
use mathlib.Core.List.{reverse}
use netns_mcast_relay.Base.{
  ℕ, ◌+◌, ◌-◌, ◌*◌, ◌/◌, ◌%◌, Bool, true, false, not, ◌&&◌, ◌||◌, Option, none, some, List, [], ◌∷◌,
  ◌++◌, Text, Bytes, ◌==◌, nat_eq, text_eq, leb, ltb, if◌then◌else◌, keep, codes, Map, lookup,
  insert,
}
use netns_mcast_relay.Paths.{add_to_first, is_space, has_prefix}

-- strings.ReplaceAll(s, "\r\n", "\n")
unfoldable pub replace_crlf : Text → Text
replace_crlf [] = []
replace_crlf (c ∷ []) = c ∷ []
replace_crlf (c ∷ d ∷ s) = elim (c == 13 && d == 10) [
  | true ↦ 10 ∷ replace_crlf s
  | false ↦ c ∷ replace_crlf (d ∷ s)
]

-- The parts between the code points that pass the test; there is always one. With a line feed this is
-- strings.Split(s, "\n").
unfoldable pub split_on : (ℕ → Bool) → Text → List Text
split_on p [] = [] ∷ []
split_on p (c ∷ s) = let parts = split_on p s in if p c then [] ∷ parts else add_to_first c parts

-- strings.Fields
unfoldable pub fields : Text → List Text
unfolding split_on
fields s = keep (λ part. not (part == [])) (split_on is_space s)

-- strings.Join(parts, " ")
unfoldable pub join_space : List Text → Text
join_space [] = []
join_space (part ∷ []) = part
join_space (part ∷ more ∷ parts) = part ++ b' ' ∷ join_space (more ∷ parts)

-- strings.Cut(s, ":")
abbrev pub cons_to_cut : ℕ → Option (Text × Text) → Option (Text × Text)
cons_to_cut c none = none
cons_to_cut c (some (before, after)) = some (c ∷ before, after)

unfoldable pub cut_colon : Text → Option (Text × Text)
cut_colon [] = none
cut_colon (c ∷ s) =
    let rest = cons_to_cut c (cut_colon s) in if c == b':' then some ([], s) else rest

-- strings.HasSuffix
unfoldable pub has_suffix : Text → Text → Bool
unfolding has_prefix
has_suffix s t = has_prefix (reverse s) (reverse t)

-- hex.EncodeToString
abbrev pub hex_digit : ℕ → ℕ
hex_digit n = if ltb n 10 then b'0' + n else b'a' + (n - 10)

unfoldable pub encode_hex : Bytes → Text
encode_hex [] = []
encode_hex (b ∷ bs) = hex_digit (b / 16) ∷ hex_digit (b % 16) ∷ encode_hex bs

abbrev pub is_upper : ℕ → Bool
is_upper c = leb b'A' c && leb c b'Z'

abbrev pub is_lower : ℕ → Bool
is_lower c = leb b'a' c && leb c b'z'

-- The bytes of a header's name: RFC 9110's tokens.
abbrev pub is_token : ℕ → Bool
is_token c =
    is_upper c
    || (is_lower c
        || ((leb b'0' c && leb c b'9')
            || (c == b'!'
                || ((leb b'#' c && leb c b'\'')
                    || (c == b'*'
                        || (c == b'+'
                            || (c == b'-'
                                || (c == b'.'
                                    || (leb b'^' c && leb c b'`')
                                    || c == b'|'
                                    || c == b'~'))))))))

abbrev pub all_tokens : Text → Bool
all_tokens [] = true
all_tokens (c ∷ s) = is_token c && all_tokens s

-- textproto.CanonicalMIMEHeaderKey: a capital at the front and after each hyphen, and small letters
-- elsewhere; a name that is no token stays as it is.
abbrev pub set_case : Bool → ℕ → ℕ
set_case upper c =
    if upper && is_lower c then c - 32 else if not upper && is_upper c then c + 32 else c

unfoldable pub capitalize : Bool → Text → Text
capitalize upper [] = []
capitalize upper (c ∷ s) = set_case upper c ∷ capitalize (c == b'-') s

unfoldable pub canonical_key : Text → Text
unfolding capitalize
canonical_key s = if all_tokens s then capitalize true s else s

-- textproto.MIMEHeader with Add and Get.
abbrev pub MimeHeader : Type 0
MimeHeader = Map Text (List Text)

abbrev pub values_of : Option (List Text) → List Text
values_of none = []
values_of (some values) = values

abbrev pub first_value : List Text → Text
first_value [] = []
first_value (value ∷ values) = value

unfoldable pub add_header : Text → Text → MimeHeader → MimeHeader
unfolding canonical_key
add_header name value headers =
    insert (canonical_key name) (values_of (lookup (canonical_key name) headers) ++ value ∷ [])
      headers

unfoldable pub get_header : Text → MimeHeader → Text
unfolding canonical_key
get_header name headers = first_value (values_of (lookup (canonical_key name) headers))
