-- ===== src/Netns.antt =====
-- internal/netns/netns.go.
pub mod Canonical
pub mod Do
pub mod Handle
mod Tests
use netns_mcast_relay.Base.{
  ℕ, Bool, true, false, ◌||◌, Text, ◌==◌, text_eq, [], ◌++◌, if◌then◌else◌, codes,
}
use netns_mcast_relay.Paths.{trim_space, clean, is_abs, dot}

pub data PathError : Type 0 where
  required : PathError
  must_be_absolute : Text → PathError

pub data PathResult : Type 0 where
  cleaned : Text → PathResult
  refused : PathError → PathResult

-- err.Error()
abbrev pub path_error_text : PathError → Text
path_error_text required = codes "namespace path is required"
path_error_text (must_be_absolute path) = codes "namespace path must be absolute: " ++ path

-- CanonicalizePath
unfoldable pub canonicalize_path : Text → PathResult
canonicalize_path path =
    let c = clean (trim_space path) in
    if c == [] || c == dot
    then refused required
    else if is_abs c
    then cleaned c
    else refused (must_be_absolute path)
