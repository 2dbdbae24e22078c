-- ===== src/Netns/Handle.antt =====
-- internal/netns/netns.go: NSHandle, Open, Close and Path, over unix.Open and the package netns.
use netns_mcast_relay.Base.{Bool, Option, none, some, Text}
use netns_mcast_relay.Netns.Do.{Namespaces}

-- NSHandle. A handle of the package netns is a file descriptor.
pub record NsHandle (N : Type 0) : Type 0 where
  pub handle : N
  pub path : Text

abbrev pub opened_at : {W N : Type 0} → Text → Option N × W → Option (NsHandle N) × W
opened_at path (none, w) = (none, w)
opened_at path (some fd, w) = (some (record { handle = fd; path = path }), w)

-- Open, read-only, over unix.Open.
unfoldable pub open_at :
    {W N : Type 0} → (Text → W → Option N × W) → Text → W → Option (NsHandle N) × W
open_at unix_open path w = opened_at path (unix_open path w)

-- Close: whether its error is nil.
unfoldable pub close : {W N : Type 0} → Namespaces W N → NsHandle N → W → Bool × W
close ns h w = ns.close_handle h.handle w
