-- ===== src/Relay/Api/Unordered.antt =====
-- internal/relay/relay.go: ActiveNamespaces on maps without an order.
use native.Mathlib.Nat.{ℕ_set}
use mathlib.Core.List
use mathlib.Core.List.{Permᴰ}
use mathlib.Core.Quot
use mathlib.Core.Quot.{Quot}
use netns_mcast_relay.Base.{
  ◌≡◌, refl, sym, ◌∙◌, ap, true, List, [], ◌∷◌, map, Text, Bytes, arith, nat_eq,
}
use netns_mcast_relay.Net.{UdpAddr}
use netns_mcast_relay.Relay.{Platform, Instance}
use netns_mcast_relay.Relay.Coordinator.{Snapshot}
use netns_mcast_relay.Relay.System.{System}
use netns_mcast_relay.Relay.Api.{text_leb, insert_sorted, sort_strings, active_namespaces}
use netns_mcast_relay.Relay.Api.Listing.{text_leb_total, text_leb_trans}

text_leb_antisymm : (s t : Text) → text_leb s t ≡ true → text_leb t s ≡ true → s ≡ t
unfolding text_leb
text_leb_antisymm [] [] h k = refl
text_leb_antisymm [] (d ∷ t) h k = cc
text_leb_antisymm (c ∷ s) [] h k = cc
text_leb_antisymm (c ∷ s) (d ∷ t) h k = ground (arith, text_leb_antisymm s t)

-- Two texts can be inserted in either order.
insert_sorted_comm :
    (s t : Text) (us : List Text)
    → insert_sorted s (insert_sorted t us) ≡ insert_sorted t (insert_sorted s us)
unfolding insert_sorted
insert_sorted_comm s t [] = ground (arith, text_leb_antisymm s t, text_leb_total s t)
insert_sorted_comm s t (u ∷ us) = ground (
  arith,
  text_leb_antisymm s t,
  text_leb_total s t,
  text_leb_total s u,
  text_leb_total t u,
  text_leb_trans s t u,
  text_leb_trans t s u,
  text_leb_trans s u t,
  text_leb_trans t u s,
  insert_sorted_comm s t us,
)

abbrev path_of : {A : Type 0} → Text × A → Text
path_of b = b.0

sort_strings-Permᴰ :
    {A : Type 0} {m m' : List (Text × A)}
    → Permᴰ m m'
    → sort_strings (map path_of m) ≡ sort_strings (map path_of m')
unfolding sort_strings
sort_strings-Permᴰ Permᴰ.nil = refl
sort_strings-Permᴰ (Permᴰ.cons {a} {b} {l₂} e p) =
    ap (insert_sorted (path_of a)) (sort_strings-Permᴰ p)
    ∙ ap (λ x. insert_sorted (path_of x) (sort_strings (map path_of l₂))) e
sort_strings-Permᴰ (Permᴰ.swap {a} {b} {l} e f) =
    insert_sorted_comm (path_of a) (path_of b) (sort_strings (map path_of l))
    ∙ rw (sym e, sym f) refl
sort_strings-Permᴰ (Permᴰ.trans p q) = sort_strings-Permᴰ p ∙ sort_strings-Permᴰ q

module _ {W H S : Type 0} (md5 : Bytes → Bytes) (os : Platform W H S) (groups : List UdpAddr) where
  -- A Go map: the entries, without an order.
  abbrev pub Unordered : Type 0
  Unordered = Quot (Permᴰ {A = Text × Instance H S})

  abbrev pub unordered : Snapshot os → Unordered
  unordered m = Quot.mk m

  -- The listing of such a map.
  listed : Unordered → List Text
  listed =
      Quot.lift (List.is_set (List.is_set ℕ_set)) (λ m. sort_strings (map path_of m))
        (λ m m' p. sort_strings-Permᴰ p)

  -- Two states of the relay whose snapshots are the same map, whatever the order of its entries, have
  -- the same listing.
  pub active_namespaces-unordered :
      (s t : System md5 os groups)
      → unordered s.snap ≡ unordered t.snap
      → active_namespaces md5 os groups s ≡ active_namespaces md5 os groups t
  unfolding active_namespaces listed
  active_namespaces-unordered s t e = ap listed e
