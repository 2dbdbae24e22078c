-- ===== src/Logging.antt =====
-- internal/logging/logging.go: DebugLazy. The logger's Enabled at the level debug is a parameter, and so
-- is what the call of `log` does to the state.
mod Tests
use netns_mcast_relay.Base.{Bool, true, false, Option, none, some, if◌then◌else◌}

unfoldable pub debug_lazy : {W L : Type 0} → (L → Bool) → Option L → (L → W → W) → W → W
debug_lazy enabled none log w = w
debug_lazy enabled (some logger) log w = if enabled logger then log logger w else w
