-- ===== src/Control/Accept/Laws.antt =====
-- internal/control/server.go: the accepted namespace paths, and the errors for the others.
use mathlib.Core.List.{append_assoc}
use mathlib.Core.Bool.{false≢true}
use netns_mcast_relay.Base.{
  ℕ, ◌≡◌, ◌↔◌, refl, ◌∙◌, sym, ap, true, some, [], ◌∷◌, ◌++◌, Text, nat_eq, text_eq, text_beq_iff,
  arith, Bool-cases, Option-cases, inl, inr, codes, subst,
}
use netns_mcast_relay.Paths.{trim_space, clean, contains}
use netns_mcast_relay.Paths.Clean.{
  NoSlash, IsName, split_slash-append, clean_part_name, trim_space_id, contains-append,
}
use netns_mcast_relay.Netns.{PathResult, cleaned, refused, must_be_absolute, canonicalize_path}
use netns_mcast_relay.Control.Accept.{
  is_digit, strip, skip_digits, pid_and_tail, after_proc, is_namespace_path, ok, err, path_required,
  namespace_result, canonicalize_namespace_path,
}

abbrev pub IsDigits : Text → Type 0
IsDigits [] = Unit
IsDigits (c ∷ s) = (is_digit c ≡ true) × IsDigits s

abbrev pub namespace_path : Text → Text
namespace_path pid = codes "/proc/" ++ pid ++ codes "/ns/net"

strip-some : (p s r : Text) → strip p s ≡ some r → s ≡ p ++ r
unfolding strip
strip-some [] s r e = cc
strip-some (c ∷ p) [] r e = cc
strip-some (c ∷ p) (d ∷ s) r e = ground (arith, strip-some p s r)

skip_digits-split : (s : Text) → (ds : Text) × (s ≡ ds ++ skip_digits s) × IsDigits ds
unfolding skip_digits
skip_digits-split [] = ([], refl, tt)
skip_digits-split (c ∷ s) = elim (Bool-cases (is_digit c)) [
  | inl e ↦
      rw e (let (ds, same, all) = skip_digits-split s in (c ∷ ds, ap (λ t. c ∷ t) same, (e, all)))
  | inr e ↦ rw e ([], refl, tt)
]

skip_digits-append :
    (ds : Text) → IsDigits ds → skip_digits (ds ++ codes "/ns/net") ≡ codes "/ns/net"
unfolding skip_digits
skip_digits-append [] h = refl
skip_digits-append (c ∷ ds) h = rw h.0 (skip_digits-append ds h.1)

pid_and_tail-split :
    (s : Text)
    → pid_and_tail s ≡ true
    → (c : ℕ) × (ds : Text) × (is_digit c ≡ true) × IsDigits ds × (s ≡ c ∷ ds ++ codes "/ns/net")
pid_and_tail-split [] h = absurd (false≢true h)
pid_and_tail-split (c ∷ s) h =
    let (ds, same, all) = skip_digits-split s in
    let tail : skip_digits s ≡ codes "/ns/net" =
      ground (arith, text_beq_iff (skip_digits s) (codes "/ns/net")) in
    (c, ds, ground arith, all, ap (λ t. c ∷ t) (same ∙ ap (λ t. ds ++ t) tail))

-- What the pattern accepts: `/proc/`, at least one digit, `/ns/net`, and nothing else.
pub is_namespace_path_iff :
    (path : Text)
    → (is_namespace_path path ≡ true) ↔ (
        (c : ℕ) × (ds : Text) × (is_digit c ≡ true)
        × IsDigits ds
        × (path ≡ namespace_path (c ∷ ds)))
unfolding is_namespace_path
is_namespace_path_iff path = (to, from)
  where
    to :
        after_proc (strip (codes "/proc/") path) ≡ true
        → (c : ℕ) × (ds : Text) × (is_digit c ≡ true)
          × IsDigits ds
          × (path ≡ namespace_path (c ∷ ds))
    to h = elim (Option-cases (strip (codes "/proc/") path)) [
      | inl gone ↦ absurd (false≢true (rw gone at h))
      | inr (r, found) ↦
          let (c, ds, hc, hd, e) = pid_and_tail-split r (rw found at h) in
          (
            c,
            ds,
            hc,
            hd,
            strip-some (codes "/proc/") path r found ∙ ap (λ t. codes "/proc/" ++ t) e,
          )
    ]

    from :
        ((c : ℕ) × (ds : Text) × (is_digit c ≡ true)
          × IsDigits ds
          × (path ≡ namespace_path (c ∷ ds)))
        → after_proc (strip (codes "/proc/") path) ≡ true
    from (c, ds, hc, hd, e) = rw (e, hc, skip_digits-append ds hd)

digits-NoSlash : (ds : Text) → IsDigits ds → NoSlash ds
digits-NoSlash [] h = tt
digits-NoSlash (c ∷ ds) h = (ground arith, digits-NoSlash ds h.1)

-- The finding: a relative path that holds the word `required` anywhere is answered with the error for
-- a missing path, since the error's text, which ends with the path, is searched for that word.
pub relative_path_required :
    (path : Text)
    → canonicalize_path path ≡ refused (must_be_absolute path)
    → contains path (codes "required") ≡ true
    → canonicalize_namespace_path path ≡ err path_required
unfolding canonicalize_namespace_path
relative_path_required path e h =
    rw (e, contains-append (codes "namespace path must be absolute: ") path (codes "required") h)

pid-IsName : (c : ℕ) (ds : Text) → is_digit c ≡ true → IsDigits ds → IsName (c ∷ ds)
pid-IsName c ds hc hd = (ground arith, ground arith, ground arith, digits-NoSlash (c ∷ ds) (hc, hd))

clean-name : (pid : Text) → IsName pid → clean (namespace_path pid) ≡ namespace_path pid
unfolding clean
clean-name pid h =
    rw (split_slash-append pid (codes "ns/net") h.3, clean_part_name (codes "proc" ∷ []) pid h)

trim_space-namespace_path : (pid : Text) → trim_space (namespace_path pid) ≡ namespace_path pid
trim_space-namespace_path pid =
    let e : namespace_path pid ≡ b'/' ∷ (codes "proc/" ++ pid ++ codes "/ns/ne") ++ b't' ∷ [] =
      ap (λ t. codes "/proc/" ++ t) (sym (append_assoc pid (codes "/ns/ne") (codes "t"))) in
    rw e (trim_space_id b'/' b't' (codes "proc/" ++ pid ++ codes "/ns/ne") refl refl)

namespace_result-ok :
    (r : PathResult) (q : Text) → namespace_result r ≡ ok q → is_namespace_path q ≡ true
namespace_result-ok (refused e) q h = ground arith
namespace_result-ok (cleaned p) q h = ground arith

namespace_path_fixed :
    (c : ℕ) (ds : Text)
    → is_digit c ≡ true
    → IsDigits ds
    → canonicalize_namespace_path (namespace_path (c ∷ ds)) ≡ ok (namespace_path (c ∷ ds))
unfolding canonicalize_namespace_path canonicalize_path
namespace_path_fixed c ds hc hd = rw (
  trim_space-namespace_path (c ∷ ds),
  clean-name (c ∷ ds) (pid-IsName c ds hc hd),
  (is_namespace_path_iff (namespace_path (c ∷ ds))).1 (c, ds, hc, hd, refl),
)

-- The form that canonicalizeNamespacePath gives an accepted path is accepted again, and unchanged.
pub canonicalize_namespace_path_idem :
    (path q : Text) → canonicalize_namespace_path path ≡ ok q → canonicalize_namespace_path q ≡ ok q
unfolding canonicalize_namespace_path
canonicalize_namespace_path_idem path q h =
    let valid = namespace_result-ok (canonicalize_path path) q h in
    let (c, ds, hc, hd, e) = (is_namespace_path_iff q).0 valid in
    subst (λ t. canonicalize_namespace_path t ≡ ok t) (sym e) (namespace_path_fixed c ds hc hd)

-- An accepted path is of the form that the pattern describes.
pub canonicalize_namespace_path-valid :
    (path q : Text) → canonicalize_namespace_path path ≡ ok q → is_namespace_path q ≡ true
unfolding canonicalize_namespace_path
canonicalize_namespace_path-valid path q h = namespace_result-ok (canonicalize_path path) q h
