-- ===== src/Middleware/Decode/Named.antt =====
-- internal/middleware/packet_decode.go: which header a logged attribute comes from.
use netns_mcast_relay.Base.{
  ◌≡◌, refl, sym, ap, ◌∙◌, true, false, Bool-cases, inl, inr, List, [], ◌∷◌, Text, ◌==◌, text_eq,
  Result, done, fails, ◌>>=◌,
}
use netns_mcast_relay.Paths.{trim_space}
use netns_mcast_relay.Strings.{MimeHeader, add_header, get_header, cut_colon, first_value}
use netns_mcast_relay.Strings.Canonical.{add_all, values_named, get_header-add_all}
use netns_mcast_relay.Middleware.Decode.{DecodeError, parse_header, parse_headers}

-- The headers up to the first empty line, in order.
unfoldable pub header_pairs : List Text → Result DecodeError (List (Text × Text))
unfolding cut_colon
header_pairs [] = done []
header_pairs (line ∷ lines) = elim (trim_space line == []) [
  | true ↦ done []
  | false ↦ parse_header (trim_space line) (cut_colon (trim_space line)) >>= λ h.
      header_pairs lines >>= λ hs. done (h ∷ hs)
]

bind-done :
    {E A B C : Type 0} (m : Result E A) (f : A → B) (g : B → C)
    → (m >>= λ a. done (g (f a))) ≡ ((m >>= λ a. done (f a)) >>= λ b. done (g b))
bind-done (done a) f g = refl
bind-done (fails e) f g = refl

-- One header, given what holds of the lines after it.
after_header :
    (lines : List Text) (headers : MimeHeader) (m : Result DecodeError (Text × Text))
    → ((hs : MimeHeader)
        → parse_headers lines hs ≡ (header_pairs lines >>= λ pairs. done (add_all pairs hs)))
    → (m >>= λ h. parse_headers lines (add_header h.0 h.1 headers)) ≡ (
        (m >>= λ h. header_pairs lines >>= λ hs. done (h ∷ hs)) >>= λ hs. done (add_all hs headers))
unfolding add_all
after_header lines headers (fails e) ih = refl
after_header lines headers (done (n, v)) ih =
    ih (add_header n v headers)
    ∙ bind-done (header_pairs lines) (λ hs. (n, v) ∷ hs) (λ hs. add_all hs headers)

parse_headers-header_pairs :
    (lines : List Text) (headers : MimeHeader)
    → parse_headers lines headers ≡ (header_pairs lines >>= λ hs. done (add_all hs headers))
unfolding parse_headers header_pairs add_all
parse_headers-header_pairs [] headers = refl
parse_headers-header_pairs (line ∷ lines) headers = elim (Bool-cases (trim_space line == [])) [
  | inl over ↦ rw (over, parse_headers, header_pairs) refl
  | inr more ↦
      rw (more, parse_headers, header_pairs)
        (after_header lines headers (parse_header (trim_space line) (cut_colon (trim_space line)))
          (parse_headers-header_pairs lines))
]

read_result :
    (name : Text) (headers : MimeHeader) (m : Result DecodeError (List (Text × Text)))
    → (m >>= λ hs. done (add_all hs [])) ≡ done headers
    → (pairs : List (Text × Text)) × (m ≡ done pairs)
      × (get_header name headers ≡ first_value (values_named name pairs))
read_result name headers (fails e) h = cc
read_result name headers (done pairs) h =
    let same : add_all pairs [] ≡ headers = cc in
    (pairs, refl, ap (get_header name) (sym same) ∙ get_header-add_all name pairs)

-- When the header lines of an SSDP message are accepted, the value that is logged for a name is that of
-- the first line before the first empty one whose name is the same but for the case of its letters, and
-- empty if there is none.
pub get_header-parse_headers :
    (lines : List Text) (name : Text) (headers : MimeHeader)
    → parse_headers lines [] ≡ done headers
    → (pairs : List (Text × Text)) × (header_pairs lines ≡ done pairs)
      × (get_header name headers ≡ first_value (values_named name pairs))
get_header-parse_headers lines name headers h =
    read_result name headers (header_pairs lines) (sym (parse_headers-header_pairs lines []) ∙ h)
