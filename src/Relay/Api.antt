-- ===== src/Relay/Api.antt =====
-- internal/relay/relay.go: AddNamespace, RemoveNamespace and ActiveNamespaces, and the relay as the
-- NamespaceController of the control API.
pub mod Listing
pub mod Unordered
pub mod Accepted
mod Tests
use netns_mcast_relay.Base.{
  ℕ, Bool, true, false, ◌&&◌, Option, none, some, List, [], ◌∷◌, map, Text, Bytes, ltb, ◌==◌,
  nat_eq, if◌then◌else◌, Map,
}
use netns_mcast_relay.Net.{UdpAddr}
use netns_mcast_relay.Relay.{Platform, Instance}
use netns_mcast_relay.Relay.Coordinator.{
  NsCmdType, ns_cmd_add, ns_cmd_remove, NsCmd, on_command, Snapshot,
}
use netns_mcast_relay.Relay.System.{System}
use netns_mcast_relay.Control.Handlers.{Controller}

-- Go's order of strings, and sort.Strings.
unfoldable pub text_leb : Text → Text → Bool
text_leb [] t = true
text_leb (c ∷ s) [] = false
text_leb (c ∷ s) (d ∷ t) = let rest = text_leb s t in if c == d then rest else ltb c d

unfoldable pub insert_sorted : Text → List Text → List Text
insert_sorted s [] = s ∷ []
insert_sorted s (t ∷ ts) = if text_leb s t then s ∷ t ∷ ts else t ∷ insert_sorted s ts

unfoldable pub sort_strings : List Text → List Text
unfolding insert_sorted
sort_strings [] = []
sort_strings (s ∷ ss) = insert_sorted s (sort_strings ss)

-- What the two `select`s take: whether the coordinator gets the command, and whether its answer is
-- taken rather than the end of the context. The coordinator takes commands only while it runs.
pub record Choice : Type 0 where
  pub handed : Bool
  pub answered : Bool

module _ {W H S : Type 0} (md5 : Bytes → Bytes) (os : Platform W H S) (groups : List UdpAddr) where
  -- AddNamespace and RemoveNamespace but for the operation: whether the error is nil.
  unfoldable pub submit :
      NsCmdType → Text → Choice → System md5 os groups → Bool × System md5 os groups
  submit op path choice s =
      if choice.handed
      then (
        choice.answered,
        record s { pending = on_command s.clock (record { op = op; path = path }) s.pending },
      )
      else (false, s)

  unfoldable pub active_namespaces : System md5 os groups → List Text
  unfolding sort_strings
  active_namespaces s = sort_strings (map (λ (b : Text × Instance H S). b.0) s.snap)

  -- The relay behind the control API; `choose` is what the selects take in each state.
  unfoldable pub relay_controller :
      (System md5 os groups → Choice) → Controller (System md5 os groups)
  unfolding submit active_namespaces
  relay_controller choose = record {
    add_namespace = λ path s. submit ns_cmd_add path (choose s) s;
    remove_namespace = λ path s. submit ns_cmd_remove path (choose s) s;
    active_namespaces = active_namespaces;
  }
