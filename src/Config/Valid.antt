-- ===== src/Config/Valid.antt =====
-- internal/config/config.go: what holds of a configuration that Parse returns.
use netns_mcast_relay.Base.{
  ◌≤◌, ◌≡◌, ◌≢◌, refl, Bool, true, ◌||◌, Option, none, some, List, [], ◌∷◌, Text, ◌==◌, text_eq,
  arith, All, done, Ensures, Ensures-bind, Ensures-require, Ensures-eq, length, ap, Bool-cases, inl,
  inr,
}
use netns_mcast_relay.Net.{UdpAddr, is_multicast}
use netns_mcast_relay.Paths.{is_abs, join}
use netns_mcast_relay.Paths.Clean.{IsName}
use netns_mcast_relay.Netns.{PathResult, cleaned, refused, canonicalize_path}
use netns_mcast_relay.Netns.Canonical.{canonicalize_path-IsName}
use netns_mcast_relay.Config.{
  Config, config_of, socket_not_absolute, timeout_not_positive, Flags, is_positive, or_default,
  set_values, require_path, canonicalize_all, require_group, parse_groups, parse_socket_mode, parse,
}
use netns_mcast_relay.Config.Mode.{parse_socket_mode_iff}

-- A slash, and names between slashes.
abbrev pub IsCanonical : Text → Type 0
IsCanonical path = (parts : List Text) × (path ≡ b'/' ∷ join parts) × All IsName parts

module _ (exists : Text → Bool) (resolve_udp_addr : Text → Option UdpAddr) where
  pub record IsValid (cfg : Config) : Type 0 where
    pub namespaces : All (λ p. IsCanonical p × (exists p ≡ true)) cfg.initial_namespaces
    pub multicast : All (λ g. is_multicast g.ip ≡ true) cfg.groups
    pub some_group : cfg.groups ≢ []
    pub socket : (cfg.control_socket_path == [] || is_abs cfg.control_socket_path) ≡ true
    pub timeout : is_positive cfg.control_timeout ≡ true
    pub mode : (1 ≤ cfg.control_socket_mode) × (cfg.control_socket_mode ≤ 511)

  require_path-Ensures :
      (path : Text) (r : PathResult)
      → canonicalize_path path ≡ r
      → Ensures (λ p. IsCanonical p × (exists p ≡ true)) (require_path exists resolve_udp_addr r)
  require_path-Ensures path (refused e) h = tt
  require_path-Ensures path (cleaned p) h = elim (Bool-cases (exists p)) [
    | inl there ↦ rw there (canonicalize_path-IsName path p h, there)
    | inr missing ↦ rw missing tt
  ]

  canonicalize_all-Ensures :
      (paths : List Text)
      → Ensures
          (All (λ p. IsCanonical p × (exists p ≡ true)))
          (canonicalize_all exists resolve_udp_addr paths)
  unfolding canonicalize_all
  canonicalize_all-Ensures [] = tt
  canonicalize_all-Ensures (path ∷ paths) =
      Ensures-bind (λ p. IsCanonical p × (exists p ≡ true)) _ _ _
        (require_path-Ensures path (canonicalize_path path) refl)
        λ canonical h.
          Ensures-bind (All (λ p. IsCanonical p × (exists p ≡ true))) _ _ _
            (canonicalize_all-Ensures paths) λ rest hs. (h, hs)

  require_group-Ensures :
      (group : Text) (o : Option UdpAddr)
      → Ensures (λ g. is_multicast g.ip ≡ true) (require_group exists resolve_udp_addr group o)
  require_group-Ensures group none = tt
  require_group-Ensures group (some a) = elim (Bool-cases (is_multicast a.ip)) [
    | inl is ↦ rw is is
    | inr is_not ↦ rw is_not tt
  ]

  -- An address for each group, all of them multicast.
  abbrev AllMulticast : List Text → List UdpAddr → Type 0
  AllMulticast groups addrs =
      (length addrs ≡ length groups) × All (λ g. is_multicast g.ip ≡ true) addrs

  parse_groups-Ensures :
      (groups : List Text)
      → Ensures (AllMulticast groups) (parse_groups exists resolve_udp_addr groups)
  unfolding parse_groups
  parse_groups-Ensures [] = (refl, tt)
  parse_groups-Ensures (group ∷ groups) =
      Ensures-bind (λ g. is_multicast g.ip ≡ true) _ _ _
        (require_group-Ensures group (resolve_udp_addr group))
        λ addr h.
          Ensures-bind (AllMulticast groups) _ _ _ (parse_groups-Ensures groups)
            λ rest (same, hs). (omega (arith, same), (h, hs))

  or_default-nonempty : (groups : List Text) → 1 ≤ length (or_default groups)
  or_default-nonempty [] = omega arith
  or_default-nonempty (g ∷ gs) = omega arith

  -- Every configuration that Parse returns is valid: each initial namespace has an absolute path in
  -- its shortest form, which exists; there is a group, and each is a multicast address; the control
  -- socket has no path or an absolute one, its timeout is positive, and its mode lies between 1 and
  -- 0o777.
  pub parse-IsValid : (given : Option Flags) → Ensures IsValid (parse exists resolve_udp_addr given)
  unfolding parse
  parse-IsValid none = tt
  parse-IsValid (some flags) =
      let groups = or_default (set_values [] flags.group) in
      Ensures-bind (All (λ p. IsCanonical p × (exists p ≡ true))) IsValid _ _
        (canonicalize_all-Ensures (set_values [] flags.ns))
        λ namespaces hn.
          Ensures-bind _ IsValid _ _
            (Ensures-require (flags.control_socket == [] || is_abs flags.control_socket)
              (socket_not_absolute flags.control_socket))
            λ _ hs.
              Ensures-bind _ IsValid _ _
                (Ensures-require (is_positive flags.control_timeout) timeout_not_positive)
                λ _ ht.
                  Ensures-bind _ IsValid _ _
                    (Ensures-eq (parse_socket_mode flags.control_socket_mode))
                    λ mode hm.
                      Ensures-bind (AllMulticast groups) IsValid _
                        (λ addrs. done (config_of flags namespaces mode addrs))
                        (parse_groups-Ensures groups)
                        λ addrs (same, hg). record {
                          namespaces = hn;
                          multicast = hg;
                          some_group = λ e. absurd (
                              omega (
                                arith,
                                ap length e,
                                same,
                                or_default-nonempty (set_values [] flags.group),
                              ));
                          socket = hs;
                          timeout = ht;
                          mode =
                              let (_, _, _, lo, hi) =
                                (parse_socket_mode_iff flags.control_socket_mode mode).0 hm in
                              (lo, hi);
                        }
