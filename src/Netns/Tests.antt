-- ===== src/Netns/Tests.antt =====
-- CanonicalizePath at concrete inputs.
use netns_mcast_relay.Base.{◌≡◌, refl, codes}
use netns_mcast_relay.Paths.{trim_space, clean}
use netns_mcast_relay.Netns.{cleaned, refused, must_be_absolute, canonicalize_path}

canonical_runs :
    canonicalize_path (codes " /proc/../proc//7/./ns/net ") ≡ cleaned (codes "/proc/7/ns/net")
unfolding canonicalize_path trim_space clean
canonical_runs = refl

relative_runs : canonicalize_path (codes "../7") ≡ refused (must_be_absolute (codes "../7"))
unfolding canonicalize_path trim_space clean
relative_runs = refl
