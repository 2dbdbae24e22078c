-- ===== src/Middleware/Decode/Tests.antt =====
-- Packets of both kinds, over a DNS library that refuses everything and ASCII texts.
use netns_mcast_relay.Base.{
  ℕ, ◌-◌, ◌≡◌, ◌≢◌, refl, none, some, List, [], ◌∷◌, ◌++◌, Text, Bytes, Result, done, fails, codes,
  pos, lookup, insert, if◌then◌else◌, text_eq,
}
use netns_mcast_relay.Net.{UdpAddr, ip_equal}
use netns_mcast_relay.Paths.{trim_left, trim_space, has_prefix}
use netns_mcast_relay.Strings.{
  replace_crlf, split_on, fields, join_space, cut_colon, has_suffix, capitalize, canonical_key,
  add_header, get_header, encode_hex, is_lower, first_value, MimeHeader,
}
use netns_mcast_relay.Strings.Canonical.{values_named}
use netns_mcast_relay.Middleware.{Packet}
use netns_mcast_relay.Middleware.Decode.{
  Message, text_attr, hex_preview, parse_headers, header_attrs, valid_ssdp_start_line, start_attr,
  decode_lines, decode_ssdp, decode_packet,
}
use netns_mcast_relay.Middleware.Decode.Total.{decode_packet-some}
use netns_mcast_relay.Middleware.Decode.Named.{header_pairs, get_header-parse_headers}

abbrev refuse : Bytes → Result Text Message
refuse b = fails (codes "unpacking header: id")

abbrev same_text : Text → Text
same_text s = s

abbrev ascii_upper : ℕ → ℕ
ascii_upper c = if is_lower c then c - 32 else c

abbrev crlf : Text
crlf = 13 ∷ 10 ∷ []

abbrev notify : Bytes
notify =
    codes "NOTIFY * HTTP/1.1"
    ++ crlf
    ++ codes "nt : upnp"
    ++ crlf
    ++ codes "NT: other"
    ++ crlf
    ++ crlf

abbrev ssdp : UdpAddr
ssdp = record { ip = 239 ∷ 255 ∷ 255 ∷ 250 ∷ []; port = pos 1900; zone = [] }

abbrev notify_packet : Packet
notify_packet = record {
  payload = some notify;
  source = none;
  group = some ssdp;
  ttl = pos 4;
  source_path = [];
}

decode_runs :
    decode_packet refuse same_text ascii_upper same_text (some notify_packet)
    ≡ some (
        text_attr (codes "protocol") (codes "ssdp")
        ∷ text_attr (codes "method") (codes "NOTIFY")
        ∷ text_attr (codes "nt") (codes "upnp")
        ∷ [])
unfolding decode_packet decode_ssdp decode_lines valid_ssdp_start_line start_attr parse_headers
    header_attrs replace_crlf split_on fields cut_colon add_header get_header canonical_key
    capitalize has_prefix has_suffix join_space trim_space trim_left ip_equal lookup insert
    hex_preview encode_hex
decode_runs = refl

decode_packet-some_example :
    decode_packet refuse same_text ascii_upper same_text (some notify_packet) ≢ none
decode_packet-some_example =
    decode_packet-some refuse same_text ascii_upper same_text (some notify_packet)

abbrev header_lines : List Text
header_lines = codes "nt : upnp" ∷ codes "NT: other" ∷ [] ∷ []

abbrev read_headers : MimeHeader
read_headers = (codes "Nt", codes "upnp" ∷ codes "other" ∷ []) ∷ []

get_header-parse_headers_example :
    (pairs : List (Text × Text)) × (header_pairs header_lines ≡ done pairs)
    × (get_header (codes "nT") read_headers ≡ first_value (values_named (codes "nT") pairs))
unfolding parse_headers cut_colon add_header canonical_key capitalize trim_space trim_left lookup
    insert
get_header-parse_headers_example =
    get_header-parse_headers header_lines (codes "nT") read_headers refl
