-- ===== src/Control/Listener/Arguments.antt =====
-- internal/config/config.go and internal/control/server.go: the tests of NewUnixServer on what Parse
-- returns.
use netns_mcast_relay.Base.{
  ◌≡◌, ◌≢◌, Bool, Option, [], Text, text_eq, text_beq_iff, arith, done, Ensures, subst,
}
use netns_mcast_relay.Net.{UdpAddr}
use netns_mcast_relay.Config.{Config, Flags, parse}
use netns_mcast_relay.Config.Valid.{IsValid, parse-IsValid}
use netns_mcast_relay.Control.Listener.{check_arguments}

module _ (exists : Text → Bool) (resolve_udp_addr : Text → Option UdpAddr) where
  check_arguments-IsValid :
      (cfg : Config)
      → IsValid exists resolve_udp_addr cfg
      → cfg.control_socket_path ≢ []
      → check_arguments cfg.control_socket_path cfg.control_timeout cfg.control_socket_mode
        ≡ done tt
  unfolding check_arguments
  check_arguments-IsValid cfg v given =
      ground (arith, v.socket, v.timeout, v.mode, text_beq_iff cfg.control_socket_path [])

  -- The arguments that the command takes from a parsed configuration with a control socket pass every
  -- test that NewUnixServer makes of them.
  pub check_arguments-parse :
      (given : Option Flags) (cfg : Config)
      → parse exists resolve_udp_addr given ≡ done cfg
      → cfg.control_socket_path ≢ []
      → check_arguments cfg.control_socket_path cfg.control_timeout cfg.control_socket_mode
        ≡ done tt
  check_arguments-parse given cfg e = check_arguments-IsValid cfg (
      subst (Ensures (IsValid exists resolve_udp_addr)) e
        (parse-IsValid exists resolve_udp_addr given))
