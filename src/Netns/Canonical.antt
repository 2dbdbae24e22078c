-- ===== src/Netns/Canonical.antt =====
-- internal/netns/netns.go: what CanonicalizePath returns.
use netns_mcast_relay.Base.{
  ◌≡◌, ◌∙◌, sym, Bool, true, ◌||◌, List, [], ◌∷◌, Text, ◌==◌, nat_eq, text_eq, if◌then◌else◌, arith,
  All,
}
use netns_mcast_relay.Paths.{trim_space, clean, is_abs, dot, join, clean_parts, split_slash}
use netns_mcast_relay.Paths.Clean.{IsName, is_abs-clean, clean_parts-split_slash}
use netns_mcast_relay.Netns.{cleaned, refused, required, must_be_absolute, canonicalize_path}

clean_abs :
    (s : Text) → is_abs s ≡ true → clean s ≡ b'/' ∷ join (clean_parts true [] (split_slash s))
unfolding clean
clean_abs s h = rw h

accepted :
    (b : Bool) (c q path : Text)
    → (if b
        then refused required
        else if is_abs c
        then cleaned c
        else refused (must_be_absolute path))
      ≡ cleaned q
    → (c ≡ q) × (is_abs c ≡ true)
accepted b c q path e = ground arith

-- A path that CanonicalizePath accepts is absolute and in its shortest form: a slash, and names
-- between slashes, none of them empty, `.` or `..`.
pub canonicalize_path-IsName :
    (path q : Text)
    → canonicalize_path path ≡ cleaned q
    → (parts : List Text) × (q ≡ b'/' ∷ join parts) × All IsName parts
unfolding canonicalize_path
canonicalize_path-IsName path q e =
    let s = trim_space path in
    let (same, abs) = accepted (clean s == [] || clean s == dot) (clean s) q path e in
    (
      clean_parts true [] (split_slash s),
      sym same ∙ clean_abs s (sym (is_abs-clean s) ∙ abs),
      clean_parts-split_slash s,
    )
