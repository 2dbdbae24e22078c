-- ===== src/Control/Accept/Tests.antt =====
-- Accepted paths at concrete inputs.
use netns_mcast_relay.Base.{ℕ, ◌≡◌, ◌↔◌, refl, true, ◌∷◌, Text, codes}
use netns_mcast_relay.Paths.{trim_space, clean, contains}
use netns_mcast_relay.Netns.{canonicalize_path}
use netns_mcast_relay.Control.Accept.{
  is_digit, is_namespace_path, err, path_required, canonicalize_namespace_path,
}
use netns_mcast_relay.Control.Accept.Laws.{
  IsDigits, namespace_path, is_namespace_path_iff, relative_path_required,
}

is_namespace_path_iff_example : (is_namespace_path (codes "/proc/7/ns/net") ≡ true) ↔ (
    (c : ℕ) × (ds : Text) × (is_digit c ≡ true)
    × IsDigits ds
    × (codes "/proc/7/ns/net" ≡ namespace_path (c ∷ ds)))
is_namespace_path_iff_example = is_namespace_path_iff (codes "/proc/7/ns/net")

relative_path_required_example :
    canonicalize_namespace_path (codes "required/7") ≡ err path_required
unfolding canonicalize_path trim_space clean contains
relative_path_required_example = relative_path_required (codes "required/7") refl refl
