-- ===== src/Config/Tests.antt =====
-- The command line at concrete inputs.
use netns_mcast_relay.Base.{
  ◌≡◌, refl, Bool, false, Option, some, List, [], ◌∷◌, Text, codes, ◌==◌, text_eq, pos, done, fails,
  if◌then◌else◌,
}
use netns_mcast_relay.Net.{UdpAddr, is_multicast}
use netns_mcast_relay.Paths.{trim_space, clean}
use netns_mcast_relay.Netns.{canonicalize_path}
use netns_mcast_relay.Config.{
  Flags, namespace_missing, mode_refused, group_not_multicast, parse_octal, parse_socket_mode,
  set_values, parse, config_of,
}
use netns_mcast_relay.Config.Mode.{Spells, parse_socket_mode_iff}
use netns_mcast_relay.Config.Valid.{IsValid, parse-IsValid}

-- Only one namespace exists.
abbrev pub there : Text → Bool
there path = path == codes "/proc/7/ns/net"

abbrev pub address : UdpAddr
address = record { ip = 224 ∷ 0 ∷ 0 ∷ 251 ∷ []; port = pos 5353; zone = [] }

abbrev pub resolve : Text → Option UdpAddr
resolve group =
    if group == codes "10.0.0.1:53"
    then some (record { ip = 10 ∷ 0 ∷ 0 ∷ 1 ∷ []; port = pos 53; zone = [] })
    else some address

abbrev pub flags : List Text → List Text → Flags
flags groups namespaces = record {
  verbose = false;
  control_socket = codes "/run/relay.sock";
  control_timeout = pos 3_000_000_000;
  control_socket_mode = codes "0660";
  control_socket_group = codes " relay ";
  group = groups;
  ns = namespaces;
}

parse_runs :
    parse there resolve (some (flags [] (codes " /proc//7/ns/net" ∷ [])))
    ≡ done (config_of (flags [] []) (codes "/proc/7/ns/net" ∷ []) 432 (address ∷ address ∷ []))
unfolding parse set_values canonicalize_path trim_space clean parse_octal is_multicast
parse_runs = refl

missing_runs :
    parse there resolve (some (flags [] (codes "/proc/8/ns/net" ∷ [])))
    ≡ fails (namespace_missing (codes "/proc/8/ns/net"))
unfolding parse set_values canonicalize_path trim_space clean
missing_runs = refl

unicast_runs :
    parse there resolve (some (flags (codes "10.0.0.1:53" ∷ []) []))
    ≡ fails (group_not_multicast (codes "10.0.0.1:53"))
unfolding parse set_values parse_octal is_multicast
unicast_runs = refl

mode_runs : parse_socket_mode (codes "1000") ≡ fails (mode_refused (codes "1000"))
unfolding parse_socket_mode parse_octal
mode_runs = refl

parse_socket_mode_iff_example : Spells (codes "0660") 432
unfolding parse_socket_mode parse_octal
parse_socket_mode_iff_example = (parse_socket_mode_iff (codes "0660") 432).0 refl

parse-IsValid_example :
    IsValid there resolve
      (config_of (flags [] []) (codes "/proc/7/ns/net" ∷ []) 432 (address ∷ address ∷ []))
unfolding parse set_values canonicalize_path trim_space clean parse_octal is_multicast
parse-IsValid_example =
    parse-IsValid there resolve (some (flags [] (codes " /proc//7/ns/net" ∷ [])))
