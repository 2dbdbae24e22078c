-- ===== src/Relay/Api/Tests.antt =====
-- The relay behind the control API, over the small platform of Relay/Tests.
use mathlib.Core.Quot
use mathlib.Core.List.{Permᴰ}
use netns_mcast_relay.Relay.Api.Unordered.{active_namespaces-unordered}
use netns_mcast_relay.Relay.Tests.{member}
use mathlib.Core.List.{Perm}
use netns_mcast_relay.Base.{
  ℕ, ◌≡◌, ◌≢◌, refl, true, none, List, [], ◌∷◌, Text, text_eq, codes, lookup,
}
use netns_mcast_relay.Paths.{trim_space, clean, contains}
use netns_mcast_relay.Netns.{canonicalize_path}
use netns_mcast_relay.Control.Accept.{is_namespace_path, canonicalize_namespace_path}
use netns_mcast_relay.Control.Handlers.{
  Body, decoded, at_eof, extract_namespace_path, check_path, Server, post_add, post_remove, handle,
}
use netns_mcast_relay.Relay.{group_key_eq}
use netns_mcast_relay.Relay.Namespace.{build_instance}
use netns_mcast_relay.Relay.Coordinator.{ns_cmd_remove, NsCmd}
use netns_mcast_relay.Relay.Coordinator.Intents.{last_intent}
use netns_mcast_relay.Relay.System.{System, new}
use netns_mcast_relay.Relay.Tests.{first_bytes, mdns, small, host, guest, two_members, started, cmd}
use netns_mcast_relay.Relay.Api.{
  Choice, text_leb, submit, active_namespaces, sort_strings, relay_controller,
}
use netns_mcast_relay.Relay.Api.Listing.{Ascending, active_namespaces-Ascending}
use netns_mcast_relay.Relay.Api.Accepted.{reconciled, post_add-active}

abbrev running : System first_bytes small (mdns ∷ [])
running = record started { snap = two_members }

-- The selects take the coordinator's side.
abbrev taken : System first_bytes small (mdns ∷ []) → Choice
taken s = record { handed = true; answered = true }

abbrev body : Text → Body
body path = record {
  content_type = codes "application/json";
  first = decoded path;
  second = at_eof;
}

abbrev nine : Text
nine = codes "/proc/9/ns/net"

abbrev server : Server (relay_controller first_bytes small (mdns ∷ []) taken)
server = record { controller = running; container_namespaces = [] }

abbrev later : List (ℕ × NsCmd)
later = (1, cmd ns_cmd_remove host) ∷ []

listing_runs :
    sort_strings (nine ∷ guest ∷ codes "/proc/10/ns/net" ∷ [])
    ≡ codes "/proc/10/ns/net" ∷ guest ∷ nine ∷ []
unfolding sort_strings text_leb
listing_runs = refl

active_namespaces-Ascending_example :
    Ascending (active_namespaces first_bytes small (mdns ∷ []) running)
    × Perm (active_namespaces first_bytes small (mdns ∷ []) running) (host ∷ guest ∷ [])
unfolding new
active_namespaces-Ascending_example =
    active_namespaces-Ascending first_bytes small (mdns ∷ []) running

build-nine : (w : ℕ) → (build_instance small (mdns ∷ []) nine w).0 ≢ none
unfolding build_instance
build-nine w e = cc

abbrev added : Server (relay_controller first_bytes small (mdns ∷ []) taken)
added =
    (handle (relay_controller first_bytes small (mdns ∷ []) taken) (post_add (body nine)) server).0

abbrev removed : Server (relay_controller first_bytes small (mdns ∷ []) taken)
removed =
    (handle (relay_controller first_bytes small (mdns ∷ []) taken) (post_remove (body guest))
      server).0

post_add-active_example :
    lookup nine (reconciled first_bytes small (mdns ∷ []) later added.controller).snap ≢ none
unfolding handle check_path extract_namespace_path canonicalize_namespace_path canonicalize_path
    trim_space clean contains is_namespace_path relay_controller submit new last_intent
post_add-active_example =
    post_add-active first_bytes small (mdns ∷ []) taken (body nine) nine server later refl refl refl
      build-nine

-- The same map, with its entries in another order.
abbrev reordered : System first_bytes small (mdns ∷ [])
reordered = record running { snap = (guest, member guest []) ∷ (host, member host []) ∷ [] }

active_namespaces-unordered_example :
    active_namespaces first_bytes small (mdns ∷ []) running
    ≡ active_namespaces first_bytes small (mdns ∷ []) reordered
active_namespaces-unordered_example =
    active_namespaces-unordered first_bytes small (mdns ∷ []) running reordered
      (Quot.sound (Permᴰ.swap refl refl))
