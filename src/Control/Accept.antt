-- ===== src/Control/Accept.antt =====
-- internal/control/server.go: what the control API accepts as a namespace path and a container ID.
pub mod Laws
mod Tests
use netns_mcast_relay.Base.{
  ℕ, zero, suc, Bool, true, false, not, ◌&&◌, ◌||◌, Option, none, some, List, [], ◌∷◌, ◌++◌, Text,
  ◌==◌, nat_eq, text_eq, leb, if◌then◌else◌, codes, length,
}
use netns_mcast_relay.Paths.{contains}
use netns_mcast_relay.Netns.{
  PathError, PathResult, cleaned, refused, path_error_text, canonicalize_path,
}

abbrev pub is_digit : ℕ → Bool
is_digit c = leb b'0' c && leb c b'9'

-- The rest after a literal.
unfoldable pub strip : Text → Text → Option Text
strip [] s = some s
strip (p ∷ ps) [] = none
strip (p ∷ ps) (c ∷ s) = if c == p then strip ps s else none

-- The rest after the longest run of digits.
unfoldable pub skip_digits : Text → Text
skip_digits [] = []
skip_digits (c ∷ s) = if is_digit c then skip_digits s else c ∷ s

-- `[0-9]+/ns/net$`: one digit, then the longest run, since no digit can match the slash.
abbrev pub pid_and_tail : Text → Bool
pid_and_tail [] = false
pid_and_tail (c ∷ s) = is_digit c && skip_digits s == codes "/ns/net"

abbrev pub after_proc : Option Text → Bool
after_proc none = false
after_proc (some s) = pid_and_tail s

-- namespacePathPattern.MatchString, `^/proc/[0-9]+/ns/net$`
unfoldable pub is_namespace_path : Text → Bool
unfolding strip skip_digits
is_namespace_path path = after_proc (strip (codes "/proc/") path)

abbrev pub is_lower_hex : ℕ → Bool
is_lower_hex c = (leb b'a' c && leb c b'f') || is_digit c

abbrev pub all_lower_hex : Text → Bool
all_lower_hex [] = true
all_lower_hex (c ∷ s) = is_lower_hex c && all_lower_hex s

-- containerIDPattern.MatchString, `^[a-f0-9]{64}$`
unfoldable pub is_container_id : Text → Bool
is_container_id id = length id == 64 && all_lower_hex id

pub data RequestError : Type 0 where
  invalid_json_body path_required path_must_be_absolute request_body_too_large
        invalid_namespace_format invalid_container_id :
      RequestError

pub data Accepted : Type 0 where
  ok : Text → Accepted
  err : RequestError → Accepted

-- canonicalizeNamespacePath
abbrev pub namespace_result : PathResult → Accepted
namespace_result (refused e) =
    if contains (path_error_text e) (codes "required")
    then err path_required
    else err path_must_be_absolute
namespace_result (cleaned path) =
    if is_namespace_path path then ok path else err invalid_namespace_format

unfoldable pub canonicalize_namespace_path : Text → Accepted
canonicalize_namespace_path path = namespace_result (canonicalize_path path)
