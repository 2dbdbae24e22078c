-- ===== src/Socket/Echo/History.antt =====
-- internal/socket/multicast.go: the pruned memory of what was sent, against the whole history.
use native.Mathlib.Nat.{le_trans}
use netns_mcast_relay.Base.{
  ℕ, ◌+◌, ◌≤◌, ◌≡◌, refl, ◌∙◌, Bool, false, ◌&&◌, ◌||◌, Option, none, some, List, [], ◌∷◌, Bytes,
  text_eq, text_beq, lookup, keep, ltb, lookup-insert, lookup-keep, guarded, IsUnique,
  insert-IsUnique, keep-IsUnique, arith,
}
use netns_mcast_relay.Socket.Echo.{
  RecentTx, entries, is_after, self_echo_window, mark_sent, is_self_echo,
}

module _ (md5 : Bytes → Bytes) where
  -- Was a payload of the same sum written less than a window ago? Newest write first.
  unfoldable pub written_within : ℕ → Bytes → List (ℕ × Bytes) → Bool
  written_within now bytes [] = false
  written_within now bytes ((t, sent) ∷ h) =
      (text_beq (md5 sent) (md5 bytes) && ltb now (t + self_echo_window))
      || written_within now bytes h

  -- The memory after the writes of a history, newest first.
  unfoldable pub memory : List (ℕ × Bytes) → RecentTx
  memory [] = none
  memory ((t, sent) ∷ h) = mark_sent md5 t sent (memory h)

  -- Times fall along the history and stay up to `now`.
  abbrev pub Before : ℕ → List (ℕ × Bytes) → Type 0
  Before now [] = Unit
  Before now ((t, sent) ∷ h) = (t ≤ now) × Before t h

  memory-IsUnique : (h : List (ℕ × Bytes)) → IsUnique (entries (memory h))
  unfolding memory mark_sent
  memory-IsUnique [] = tt
  memory-IsUnique ((t, sent) ∷ h) =
      insert-IsUnique (md5 sent) (t + self_echo_window) _
        (keep-IsUnique (ltb t) (entries (memory h)) (memory-IsUnique h))

  is_after-guarded :
      (t now : ℕ) (o : Option ℕ) → t ≤ now → is_after now (guarded (ltb t) o) ≡ is_after now o
  is_after-guarded t now none le = refl
  is_after-guarded t now (some e) le = ground arith

  Before-mono : (t now : ℕ) (h : List (ℕ × Bytes)) → t ≤ now → Before t h → Before now h
  Before-mono t now [] le b = tt
  Before-mono t now ((u, sent) ∷ h) le b = (le_trans b.0 le, b.1)

  -- No write of the history is later than `t`, so none lasts longer than one made at `t`.
  expired_all :
      (t now : ℕ) (bytes : Bytes) (h : List (ℕ × Bytes))
      → Before t h
      → ltb now (t + self_echo_window) ≡ false
      → written_within now bytes h ≡ false
  unfolding written_within
  expired_all t now bytes [] b e = refl
  expired_all t now bytes ((u, sent) ∷ h) b e = ground (arith, expired_all u now bytes h b.1)

  is_after-memory :
      (now : ℕ) (bytes : Bytes) (h : List (ℕ × Bytes))
      → Before now h
      → is_after now (lookup (md5 bytes) (entries (memory h))) ≡ written_within now bytes h
  unfolding memory mark_sent written_within
  is_after-memory now bytes [] b = unfold lookup in refl
  is_after-memory now bytes ((t, sent) ∷ h) (le, b) =
      let m = entries (memory h) in
      ground (
        arith,
        lookup-insert (md5 sent) (md5 bytes) (t + self_echo_window)
            (keep (λ (b : Bytes × ℕ). ltb t b.1) m),
        lookup-keep (ltb t) (md5 bytes) m (memory-IsUnique h),
        is_after-guarded t now (lookup (md5 bytes) m) le,
        is_after-memory now bytes h (Before-mono t now h le b),
        expired_all t now bytes h b,
      )

  is_self_echo-entries :
      (now : ℕ) (bytes : Bytes) (recent : RecentTx)
      → is_self_echo md5 now bytes recent ≡ is_after now (lookup (md5 bytes) (entries recent))
  unfolding is_self_echo
  is_self_echo-entries now bytes none = unfold lookup in refl
  is_self_echo-entries now bytes (some m) = refl

  -- A payload counts as the socket's own echo exactly when one of the same sum was written less than
  -- a window ago, although each write prunes the memory; the clock does not run backwards.
  pub is_self_echo-memory :
      (now : ℕ) (bytes : Bytes) (h : List (ℕ × Bytes))
      → Before now h
      → is_self_echo md5 now bytes (memory h) ≡ written_within now bytes h
  is_self_echo-memory now bytes h b =
      is_self_echo-entries now bytes (memory h) ∙ is_after-memory now bytes h b
