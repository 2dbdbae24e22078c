-- ===== src/Middleware/Decode.antt =====
-- internal/middleware/packet_decode.go: what a log line says of a packet. The DNS library's Unpack, the
-- decoding of UTF-8, unicode.ToUpper and the quoting of %q are parameters; an invalid byte of a payload
-- is the code point that Go decodes it as.
pub mod Total
pub mod Named
mod Tests
use netns_mcast_relay.Base.{
  ℕ, Bool, true, false, not, ◌&&◌, ◌||◌, Option, none, some, List, [], ◌∷◌, ◌++◌, map, Text, Bytes,
  ◌==◌, nat_eq, text_eq, int_eq, pos, if◌then◌else◌, codes, length, take, lookup, Result, done,
  fails, ◌>>=◌, ◌>>◌, require, keep,
}
use netns_mcast_relay.Net.{UdpAddr, ip_equal}
use netns_mcast_relay.Paths.{trim_space, has_prefix}
use netns_mcast_relay.Strings.{
  replace_crlf, split_on, fields, join_space, cut_colon, has_suffix, encode_hex, MimeHeader,
  add_header, get_header,
}
use netns_mcast_relay.Middleware.{Packet}

abbrev pub hex_preview_bytes : ℕ
hex_preview_bytes = 64

abbrev pub mdns_ipv4 : Bytes
mdns_ipv4 = 224 ∷ 0 ∷ 0 ∷ 251 ∷ []

abbrev pub mdns_ipv6 : Bytes
mdns_ipv6 = 0xff ∷ 2 ∷ 0 ∷ 0 ∷ 0 ∷ 0 ∷ 0 ∷ 0 ∷ 0 ∷ 0 ∷ 0 ∷ 0 ∷ 0 ∷ 0 ∷ 0 ∷ 0xfb ∷ []

abbrev pub ssdp_ipv4 : Bytes
ssdp_ipv4 = 239 ∷ 255 ∷ 255 ∷ 250 ∷ []

-- slog.Attr, with the kinds of values that are used.
pub data AttrValue : Type 0 where
  string : Text → AttrValue
  number : ℕ → AttrValue
  flag : Bool → AttrValue

pub record Attr : Type 0 where
  pub name : Text
  pub value : AttrValue

abbrev pub text_attr : Text → Text → Attr
text_attr name value = record { name = name; value = string value }

-- The parts of dnsmessage.Message that are read: the counts, and each question's name and type.
pub record Message : Type 0 where
  pub id : ℕ
  pub response : Bool
  pub questions : List (Text × Text)
  pub answers : ℕ
  pub authorities : ℕ
  pub additionals : ℕ

pub data DecodeError : Type 0 where
  not_unpacked : Text → DecodeError
  missing_start_line : DecodeError
  invalid_start_line : Text → DecodeError
  invalid_header : Text → DecodeError

abbrev pub bytes_or_nil : Option Bytes → Bytes
bytes_or_nil none = []
bytes_or_nil (some bytes) = bytes

-- packetData
abbrev pub packet_data : Option Packet → Option Bytes
packet_data none = none
packet_data (some pkt) = pkt.payload

-- hexPreview; the slice `[:64]` is made of longer payloads only.
unfoldable pub hex_preview : Option Bytes → Text
unfolding encode_hex
hex_preview payload = encode_hex (take hex_preview_bytes (bytes_or_nil payload))

abbrev pub unknown_packet_attrs : Option Bytes → List Attr
unknown_packet_attrs payload =
    text_attr (codes "protocol") (codes "unknown")
    ∷ text_attr (codes "hex_preview") (hex_preview payload)
    ∷ []

-- The attributes of the first question, if there is one.
abbrev pub question_attrs : List (Text × Text) → List Attr
question_attrs [] = []
question_attrs ((name, kind) ∷ questions) =
    text_attr (codes "question_name") name ∷ text_attr (codes "question_type") kind ∷ []

abbrev pub message_attrs : Message → List Attr
message_attrs msg =
    text_attr (codes "protocol") (codes "mdns")
    ∷ record { name = codes "id"; value = number msg.id }
    ∷ record { name = codes "response"; value = flag msg.response }
    ∷ record { name = codes "questions"; value = number (length msg.questions) }
    ∷ record { name = codes "answers"; value = number msg.answers }
    ∷ record { name = codes "authorities"; value = number msg.authorities }
    ∷ record { name = codes "additionals"; value = number msg.additionals }
    ∷ question_attrs msg.questions

-- The body of the loop over the header lines.
abbrev pub parse_header : Text → Option (Text × Text) → Result DecodeError (Text × Text)
parse_header line none = fails (invalid_header line)
parse_header line (some (name, value)) =
    if trim_space name == []
    then fails (invalid_header line)
    else done (trim_space name, trim_space value)

unfoldable pub parse_headers : List Text → MimeHeader → Result DecodeError MimeHeader
unfolding add_header cut_colon
parse_headers [] headers = done headers
parse_headers (line ∷ lines) headers = elim (trim_space line == []) [
  | true ↦ done headers
  | false ↦ parse_header (trim_space line) (cut_colon (trim_space line)) >>= λ h.
      parse_headers lines (add_header h.0 h.1 headers)
]

-- The names of the headers that are logged, with strings.ToLower of each.
abbrev pub logged_headers : List (Text × Text)
logged_headers =
    (codes "ST", codes "st")
    ∷ (codes "NT", codes "nt")
    ∷ (codes "USN", codes "usn")
    ∷ (codes "Location", codes "location")
    ∷ []

unfoldable pub header_attrs : List (Text × Text) → MimeHeader → List Attr
unfolding get_header
header_attrs [] headers = []
header_attrs ((name, label) ∷ names) headers =
    let rest = header_attrs names headers in
    if get_header name headers == [] then rest else text_attr label (get_header name headers) ∷ rest

abbrev pub unpacked : Result Text Message → Result DecodeError (List Attr)
unpacked (fails text) = fails (not_unpacked text)
unpacked (done msg) = done (message_attrs msg)

abbrev pub attrs_with :
    Option Attr → Result DecodeError MimeHeader → Option (Result DecodeError (List Attr))
attrs_with none headers = none
attrs_with (some attr) (fails err) = some (fails err)
attrs_with (some attr) (done headers) = some (
    done (text_attr (codes "protocol") (codes "ssdp") ∷ attr ∷ header_attrs logged_headers headers))

abbrev pub is_mdns : UdpAddr → Bool
is_mdns group =
    group.port == pos 5353 && (ip_equal group.ip mdns_ipv4 || ip_equal group.ip mdns_ipv6)

abbrev pub is_ssdp : UdpAddr → Bool
is_ssdp group = group.port == pos 1900 && ip_equal group.ip ssdp_ipv4

module _ (unpack : Bytes → Result Text Message) (text_of : Bytes → Text) (to_upper : ℕ → ℕ)
    (quote : Text → Text) where
  abbrev pub error_text : DecodeError → Text
  error_text (not_unpacked text) = text
  error_text missing_start_line = codes "missing start line"
  error_text (invalid_start_line line) = codes "invalid start line " ++ quote line
  error_text (invalid_header line) = codes "invalid header " ++ quote line

  abbrev pub decode_error_attrs : Text → Option Bytes → DecodeError → List Attr
  decode_error_attrs protocol payload err =
      text_attr (codes "protocol") protocol
      ∷ text_attr (codes "error") (error_text err)
      ∷ text_attr (codes "hex_preview") (hex_preview payload)
      ∷ []

  -- decodeMDNS
  abbrev pub decode_mdns : Option Bytes → Result DecodeError (List Attr)
  decode_mdns payload = unpacked (unpack (bytes_or_nil payload))

  -- validSSDPStartLine
  unfoldable pub valid_ssdp_start_line : Text → Bool
  unfolding has_prefix has_suffix
  valid_ssdp_start_line line =
      has_prefix (map to_upper line) (codes "HTTP/1.")
      || (has_suffix (map to_upper line) (codes " HTTP/1.0")
          || has_suffix (map to_upper line) (codes " HTTP/1.1"))

  -- The attribute of the start line; `none` is the panic of an index beyond its fields.
  unfoldable pub start_attr : Text → List Text → Option Attr
  unfolding has_prefix join_space
  start_attr line [] = none
  start_attr line (part ∷ parts) = some (
      if has_prefix (map to_upper line) (codes "HTTP/")
      then text_attr (codes "status") (join_space parts)
      else text_attr (codes "method") (map to_upper part))

  unfoldable pub decode_lines : List Text → Option (Result DecodeError (List Attr))
  unfolding valid_ssdp_start_line start_attr fields parse_headers header_attrs
  decode_lines [] = some (fails missing_start_line)
  decode_lines (line ∷ lines) =
      if trim_space line == []
      then some (fails missing_start_line)
      else if not (valid_ssdp_start_line (trim_space line))
      then some (fails (invalid_start_line (trim_space line)))
      else attrs_with (start_attr (trim_space line) (fields (trim_space line)))
          (parse_headers lines [])

  -- decodeSSDP
  unfoldable pub decode_ssdp : Option Bytes → Option (Result DecodeError (List Attr))
  unfolding decode_lines replace_crlf split_on
  decode_ssdp payload =
      decode_lines (split_on (λ c. c == 10) (replace_crlf (text_of (bytes_or_nil payload))))

  abbrev pub attrs_or_error : Text → Option Bytes → Result DecodeError (List Attr) → List Attr
  attrs_or_error protocol payload (fails err) = decode_error_attrs protocol payload err
  attrs_or_error protocol payload (done attrs) = attrs

  abbrev pub ssdp_attrs :
      Option Bytes → Option (Result DecodeError (List Attr)) → Option (List Attr)
  ssdp_attrs payload none = none
  ssdp_attrs payload (some r) = some (attrs_or_error (codes "ssdp") payload r)

  abbrev pub decode_group : UdpAddr → Option Bytes → Option (List Attr)
  decode_group group payload =
      if is_mdns group
      then some (attrs_or_error (codes "mdns") payload (decode_mdns payload))
      else if is_ssdp group
      then ssdp_attrs payload (decode_ssdp payload)
      else some (unknown_packet_attrs payload)

  abbrev pub with_group : Option UdpAddr → Option Bytes → Option (List Attr)
  with_group none payload = some (unknown_packet_attrs payload)
  with_group (some group) payload = decode_group group payload

  -- decodePacket, of a packet or nil; `none` is a panic.
  unfoldable pub decode_packet : Option Packet → Option (List Attr)
  unfolding decode_ssdp hex_preview ip_equal
  decode_packet none = some (unknown_packet_attrs (packet_data none))
  decode_packet (some pkt) = with_group pkt.group pkt.payload
