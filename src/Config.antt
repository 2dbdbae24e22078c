-- ===== src/Config.antt =====
-- internal/config/config.go: the command line. The flag package's result is the record `Flags`; the
-- file system's answer to Stat and the resolver's to ResolveUDPAddr are parameters.
pub mod Mode
pub mod Valid
pub mod Tests
use netns_mcast_relay.Base.{
  ℕ, ◌+◌, ◌-◌, ◌*◌, ◌^◌, Bool, true, false, not, ◌&&◌, ◌||◌, Option, none, some, List, [], ◌∷◌,
  ◌++◌, Text, ◌==◌, nat_eq, text_eq, ltb, leb, if◌then◌else◌, codes, ℤ, pos, negsuc, Result, done,
  fails, ◌>>=◌, ◌>>◌, require,
}
use netns_mcast_relay.Net.{UdpAddr, is_multicast}
use netns_mcast_relay.Paths.{trim_space, is_abs}
use netns_mcast_relay.Netns.{PathError, PathResult, cleaned, refused, canonicalize_path}

-- groupsFlag.Set and namespacesFlag.Set, and their use for each occurrence on the command line.
abbrev pub set_value : List Text → Text → List Text
set_value values value = values ++ value ∷ []

unfoldable pub set_values : List Text → List Text → List Text
set_values values [] = values
set_values values (value ∷ rest) = set_values (set_value values value) rest

-- What fs.Parse leaves in the flags' variables. `group` and `ns` are the occurrences in order, the
-- timeout is in nanoseconds.
pub record Flags : Type 0 where
  pub verbose : Bool
  pub control_socket : Text
  pub control_timeout : ℤ
  pub control_socket_mode : Text
  pub control_socket_group : Text
  pub group : List Text
  pub ns : List Text

pub record Config : Type 0 where
  pub initial_namespaces : List Text
  pub groups : List UdpAddr
  pub verbose : Bool
  pub control_socket_path : Text
  pub control_timeout : ℤ
  pub control_socket_mode : ℕ
  pub control_socket_group : Text

pub data ConfigError : Type 0 where
  flags_refused : ConfigError
  namespace_refused : PathError → ConfigError
  namespace_missing : Text → ConfigError
  socket_not_absolute : Text → ConfigError
  timeout_not_positive : ConfigError
  mode_refused : Text → ConfigError
  group_unresolved : Text → ConfigError
  group_not_multicast : Text → ConfigError

-- strconv.ParseUint(value, 8, 9), from the digits read so far: `none` for a syntax or a range error.
abbrev pub is_octal : ℕ → Bool
is_octal c = leb b'0' c && leb c b'7'

unfoldable pub parse_octal : ℕ → Text → Option ℕ
parse_octal n [] = some n
parse_octal n (c ∷ s) =
    let m = n * 8 + (c - b'0') in
    let rest = parse_octal m s in if not (is_octal c) || ltb (2 ^ 9 - 1) m then none else rest

abbrev pub parse_uint : Text → Option ℕ
parse_uint [] = none
parse_uint (c ∷ s) = parse_octal 0 (c ∷ s)

-- `err != nil || parsed == 0 || parsed > 0o777`
abbrev pub mode_result : Text → Option ℕ → Result ConfigError ℕ
mode_result value none = fails (mode_refused value)
mode_result value (some parsed) =
    if parsed == 0 || ltb 511 parsed then fails (mode_refused value) else done parsed

unfoldable pub parse_socket_mode : Text → Result ConfigError ℕ
parse_socket_mode value = mode_result value (parse_uint value)

abbrev pub is_positive : ℤ → Bool
is_positive (pos n) = ltb 0 n
is_positive (negsuc n) = false

abbrev pub default_groups : List Text
default_groups = codes "224.0.0.251:5353" ∷ codes "239.255.255.250:1900" ∷ []

-- `if len(groups) == 0`
abbrev pub or_default : List Text → List Text
or_default [] = default_groups
or_default (group ∷ groups) = group ∷ groups

abbrev pub config_of : Flags → List Text → ℕ → List UdpAddr → Config
config_of flags namespaces mode groups = record {
  initial_namespaces = namespaces;
  groups = groups;
  verbose = flags.verbose;
  control_socket_path = flags.control_socket;
  control_timeout = flags.control_timeout;
  control_socket_mode = mode;
  control_socket_group = trim_space flags.control_socket_group;
}

module _ (exists : Text → Bool) (resolve_udp_addr : Text → Option UdpAddr) where
  abbrev pub require_path : PathResult → Result ConfigError Text
  require_path (refused e) = fails (namespace_refused e)
  require_path (cleaned path) = if exists path then done path else fails (namespace_missing path)

  -- canonicalizeStartupNamespacePath, and the loop over the namespaces.
  abbrev pub canonicalize_startup_namespace_path : Text → Result ConfigError Text
  canonicalize_startup_namespace_path path = require_path (canonicalize_path path)

  unfoldable pub canonicalize_all : List Text → Result ConfigError (List Text)
  canonicalize_all [] = done []
  canonicalize_all (path ∷ paths) = do
    canonical ← canonicalize_startup_namespace_path path
    rest ← canonicalize_all paths
    done (canonical ∷ rest)

  abbrev pub require_group : Text → Option UdpAddr → Result ConfigError UdpAddr
  require_group group none = fails (group_unresolved group)
  require_group group (some addr) =
      if is_multicast addr.ip then done addr else fails (group_not_multicast group)

  -- parseMulticastGroup, and the loop over the groups.
  abbrev pub parse_multicast_group : Text → Result ConfigError UdpAddr
  parse_multicast_group group = require_group group (resolve_udp_addr group)

  unfoldable pub parse_groups : List Text → Result ConfigError (List UdpAddr)
  parse_groups [] = done []
  parse_groups (group ∷ groups) = do
    addr ← parse_multicast_group group
    rest ← parse_groups groups
    done (addr ∷ rest)

  abbrev pub parsed_flags : Option Flags → Result ConfigError Flags
  parsed_flags none = fails flags_refused
  parsed_flags (some flags) = done flags

  -- Parse, on what fs.Parse gives.
  unfoldable pub parse : Option Flags → Result ConfigError Config
  unfolding canonicalize_all parse_socket_mode parse_groups
  parse given = do
    flags ← parsed_flags given
    namespaces ← canonicalize_all (set_values [] flags.ns)
    require (flags.control_socket == [] || is_abs flags.control_socket)
        (socket_not_absolute flags.control_socket)
    require (is_positive flags.control_timeout) timeout_not_positive
    mode ← parse_socket_mode flags.control_socket_mode
    groups ← parse_groups (or_default (set_values [] flags.group))
    done (config_of flags namespaces mode groups)
