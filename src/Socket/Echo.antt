-- ===== src/Socket/Echo.antt =====
-- internal/socket/multicast.go: markSent and isSelfEcho. Times are nanoseconds; MD5 is a parameter,
-- and nothing below depends on what it computes.
pub mod History
mod Tests
use netns_mcast_relay.Base.{
  ℕ, ◌+◌, ◌*◌, Bool, true, false, Option, none, some, List, [], ◌∷◌, Bytes, text_eq, Map, lookup,
  insert, keep, ltb,
}

-- selfEchoWindow, 500 * time.Millisecond
abbrev pub self_echo_window : ℕ
self_echo_window = 500 * 1_000_000

-- `recentTx`, the pointer that is nil until the first write.
abbrev pub RecentTx : Type 0
RecentTx = Option (Map Bytes ℕ)

abbrev pub entries : RecentTx → Map Bytes ℕ
entries none = []
entries (some m) = m

-- `exp, ok := m[h]; ok && exp.After(now)`
abbrev pub is_after : ℕ → Option ℕ → Bool
is_after now none = false
is_after now (some expires) = ltb now expires

module _ (md5 : Bytes → Bytes) where
  unfoldable pub mark_sent : ℕ → Bytes → RecentTx → RecentTx
  mark_sent now bytes recent = some (
      insert (md5 bytes) (now + self_echo_window)
        (keep (λ (b : Bytes × ℕ). ltb now b.1) (entries recent)))

  unfoldable pub is_self_echo : ℕ → Bytes → RecentTx → Bool
  is_self_echo now bytes none = false
  is_self_echo now bytes (some recent) = is_after now (lookup (md5 bytes) recent)
