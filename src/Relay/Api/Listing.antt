-- ===== src/Relay/Api/Listing.antt =====
-- internal/relay/relay.go: the listing of ActiveNamespaces.
use mathlib.Core.List.{Perm}
use mathlib.Core.List.Perm
use netns_mcast_relay.Base.{
  ◌≡◌, refl, true, false, List, [], ◌∷◌, map, Text, Bytes, All, arith, Bool-cases, inl, inr, nat_eq,
}
use netns_mcast_relay.Net.{UdpAddr}
use netns_mcast_relay.Relay.{Platform, Instance}
use netns_mcast_relay.Relay.System.{System}
use netns_mcast_relay.Relay.Api.{text_leb, insert_sorted, sort_strings, active_namespaces}

abbrev pub Ascending : List Text → Type 0
Ascending [] = Unit
Ascending (s ∷ ss) = All (λ t. text_leb s t ≡ true) ss × Ascending ss

pub text_leb_total : (s t : Text) → text_leb s t ≡ false → text_leb t s ≡ true
unfolding text_leb
text_leb_total [] t h = cc
text_leb_total (c ∷ s) [] h = refl
text_leb_total (c ∷ s) (d ∷ t) h = ground (arith, text_leb_total s t)

pub text_leb_trans :
    (s t u : Text) → text_leb s t ≡ true → text_leb t u ≡ true → text_leb s u ≡ true
unfolding text_leb
text_leb_trans [] t u h k = refl
text_leb_trans (c ∷ s) [] u h k = cc
text_leb_trans (c ∷ s) (d ∷ t) [] h k = cc
text_leb_trans (c ∷ s) (d ∷ t) (e ∷ u) h k = ground (arith, text_leb_trans s t u)

below_trans :
    (s t : Text) (ts : List Text)
    → text_leb s t ≡ true
    → All (λ u. text_leb t u ≡ true) ts
    → All (λ u. text_leb s u ≡ true) ts
below_trans s t [] h a = tt
below_trans s t (u ∷ us) h a = (text_leb_trans s t u h a.0, below_trans s t us h a.1)

insert_sorted-All :
    (r s : Text) (ts : List Text)
    → text_leb r s ≡ true
    → All (λ u. text_leb r u ≡ true) ts
    → All (λ u. text_leb r u ≡ true) (insert_sorted s ts)
unfolding insert_sorted
insert_sorted-All r s [] h a = (h, tt)
insert_sorted-All r s (t ∷ ts) h a = ground (arith, insert_sorted-All r s ts h)

insert_sorted-Ascending :
    (s : Text) (ts : List Text) → Ascending ts → Ascending (insert_sorted s ts)
unfolding insert_sorted
insert_sorted-Ascending s [] a = (tt, tt)
insert_sorted-Ascending s (t ∷ ts) a = elim (Bool-cases (text_leb s t)) [
  | inl below ↦ rw below ((below, below_trans s t ts below a.0), a)
  | inr above ↦
      rw above
        (insert_sorted-All t s ts (text_leb_total s t above) a.0, insert_sorted-Ascending s ts a.1)
]

insert_sorted-perm : (s : Text) (ts : List Text) → Perm (insert_sorted s ts) (s ∷ ts)
unfolding insert_sorted
insert_sorted-perm s [] = Perm.rfl
insert_sorted-perm s (t ∷ ts) = elim (Bool-cases (text_leb s t)) [
  | inl below ↦ rw below Perm.rfl
  | inr above ↦ rw above (Perm.trans (Perm.cons t (insert_sorted-perm s ts)) (Perm.swap s t ts))
]

sort_strings-Ascending : (ss : List Text) → Ascending (sort_strings ss)
unfolding sort_strings
sort_strings-Ascending [] = tt
sort_strings-Ascending (s ∷ ss) =
    insert_sorted-Ascending s (sort_strings ss) (sort_strings-Ascending ss)

sort_strings-perm : (ss : List Text) → Perm (sort_strings ss) ss
unfolding sort_strings
sort_strings-perm [] = Perm.rfl
sort_strings-perm (s ∷ ss) =
    Perm.trans (insert_sorted-perm s (sort_strings ss)) (Perm.cons s (sort_strings-perm ss))

module _ {W H S : Type 0} (md5 : Bytes → Bytes) (os : Platform W H S) (groups : List UdpAddr) where
  -- ActiveNamespaces lists the paths of the current snapshot, each as often as it stands there, in
  -- ascending order.
  pub active_namespaces-Ascending :
      (s : System md5 os groups)
      → Ascending (active_namespaces md5 os groups s)
        × Perm (active_namespaces md5 os groups s) (map (λ (b : Text × Instance H S). b.0) s.snap)
  unfolding active_namespaces
  active_namespaces-Ascending s =
      let paths = map (λ (b : Text × Instance H S). b.0) s.snap in
      (sort_strings-Ascending paths, sort_strings-perm paths)
