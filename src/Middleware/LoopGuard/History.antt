-- ===== src/Middleware/LoopGuard/History.antt =====
-- internal/middleware/loop_guard.go: the guard against a history that forgets nothing.
use netns_mcast_relay.Base.{
  ℕ, ◌+◌, ◌≤◌, ◌≡◌, refl, Bool, true, false, not, ◌&&◌, ◌||◌, List, [], ◌∷◌, Bytes, arith,
  if◌then◌else◌, ltb, Map, lookup, insert, lookup-insert, IsUnique, All, Bool-cases, inl, inr, ℤ,
  ◌∙◌,
}
use native.Mathlib.Nat.{le_trans}
use netns_mcast_relay.Middleware.{Packet, is_dropped}
use netns_mcast_relay.Middleware.LoopGuard.{
  LoopKey, loop_key_eq, loop_key_beq, loop_key_beq_iff, LoopGuard, is_live, cleanup,
  loop_key_for_packet, process, new_loop_guard,
}
use netns_mcast_relay.Middleware.LoopGuard.Entries.{
  live-cleanup, process-IsUnique, window-process, process_seen, process_fresh, window-cleanup,
}

-- Was a packet with this key let through less than a window ago? The history is never cleaned.
unfoldable pub seen_within : ℕ → ℕ → LoopKey → Map LoopKey ℕ → Bool
seen_within w now k [] = false
seen_within w now k ((j, t) ∷ h) = (loop_key_beq j k && ltb now (t + w)) || seen_within w now k h

-- The specification: let a packet through unless its key was let through less than `w` ago.
unfoldable pub spec_decisions : ℕ → Map LoopKey ℕ → List (ℕ × LoopKey) → List Bool
spec_decisions w h [] = []
spec_decisions w h ((now, k) ∷ es) =
    let again = seen_within w now k h in
    not again ∷ spec_decisions w (if again then h else (k, now) ∷ h) es

-- Times do not run backwards.
abbrev pub Ordered {ℓ} : {A : Type ℓ} → ℕ → List (ℕ × A) → Type 0
Ordered t [] = Unit
Ordered t ((now, a) ∷ es) = (t ≤ now) × Ordered now es

seen_within_mono :
    (w now later : ℕ) (k : LoopKey) (h : Map LoopKey ℕ)
    → now ≤ later
    → seen_within w now k h ≡ false
    → seen_within w later k h ≡ false
unfolding seen_within
seen_within_mono w now later k [] le e = refl
seen_within_mono w now later k ((j, t) ∷ h) le e =
    ground (arith, seen_within_mono w now later k h le)

record Simulates (t : ℕ) (g : LoopGuard) (h : Map LoopKey ℕ) : Type 0 where
  unique : IsUnique g.seen
  agrees :
      (k : LoopKey) (now : ℕ)
      → t ≤ now
      → is_live now (lookup k g.seen) ≡ seen_within g.window now k h

module _ (md5 : Bytes → Bytes) where
  -- Which packets of a sequence the guard lets through.
  unfoldable pub decisions : LoopGuard → List (ℕ × Packet) → List Bool
  decisions g [] = []
  decisions g ((now, pkt) ∷ es) =
      not (is_dropped (process md5 now g pkt).1) ∷ decisions (process md5 now g pkt).0 es

  abbrev pub keys_of : List (ℕ × Packet) → List (ℕ × LoopKey)
  keys_of [] = []
  keys_of ((now, pkt) ∷ es) = (now, loop_key_for_packet md5 pkt) ∷ keys_of es

  module _ {t now : ℕ} {g : LoopGuard} {h : Map LoopKey ℕ} (pkt : Packet) (le : t ≤ now)
      (s : Simulates t g h) where
    abbrev key : LoopKey
    key = loop_key_for_packet md5 pkt

    agrees_admitted :
        (k : LoopKey) (later : ℕ)
        → now ≤ later
        → seen_within g.window now key h ≡ false
        → is_live later (lookup k (insert key (now + g.window) (cleanup now g).seen))
          ≡ seen_within g.window later k ((key, now) ∷ h)
    unfolding seen_within
    agrees_admitted k later le' fresh = ground (
      arith,
      lookup-insert key k (now + g.window) (cleanup now g).seen,
      live-cleanup now later g k s.unique le',
      s.agrees k later,
      loop_key_beq_iff key k,
      seen_within_mono g.window now later key h le' fresh,
    )

    process-Simulates_seen :
        seen_within g.window now key h ≡ true → Simulates now (process md5 now g pkt).0 h
    process-Simulates_seen e =
        rw (process_seen md5 now g pkt (s.agrees key now le ∙ e))
          (record { unique = s.unique; agrees = λ k later le'. s.agrees k later (le_trans le le') })

    process-Simulates_fresh :
        seen_within g.window now key h ≡ false
        → Simulates now (process md5 now g pkt).0 ((key, now) ∷ h)
    process-Simulates_fresh e = record {
      unique = process-IsUnique md5 now g pkt s.unique;
      agrees = λ k later le'.
          rw (process_fresh md5 now g pkt (s.agrees key now le ∙ e), window-cleanup now g)
            (agrees_admitted k later le' e);
    }

  -- From a guard that agrees with a history, every decision is the specification's.
  decisions-Simulates :
      (t : ℕ) (g : LoopGuard) (h : Map LoopKey ℕ) (es : List (ℕ × Packet))
      → Simulates t g h
      → Ordered t es
      → All (λ e. is_dropped e.1 ≡ false) es
      → decisions g es ≡ spec_decisions g.window h (keys_of es)
  unfolding decisions spec_decisions
  decisions-Simulates t g h [] s o d = refl
  decisions-Simulates t g h ((now, pkt) ∷ es) s (le, o) (d, ds) =
      elim (Bool-cases (seen_within g.window now (loop_key_for_packet md5 pkt) h)) [
        | inl e ↦ ground (
          arith,
          e,
          d,
          window-process md5 now g pkt,
          process_seen md5 now g pkt (s.agrees _ now le ∙ e),
          decisions-Simulates now (process md5 now g pkt).0 h es (process-Simulates_seen pkt le s e)
              o ds,
        )
        | inr e ↦ ground (
          arith,
          e,
          d,
          window-process md5 now g pkt,
          process_fresh md5 now g pkt (s.agrees _ now le ∙ e),
          decisions-Simulates now (process md5 now g pkt).0 ((loop_key_for_packet md5 pkt, now) ∷ h)
              es (process-Simulates_fresh pkt le s e) o ds,
        )
      ]

  -- The guard lets through exactly the packets that the specification lets through, although it
  -- forgets entries: for packets with data, at times that do not run backwards.
  pub decisions-new_loop_guard :
      (w : ℤ) (es : List (ℕ × Packet))
      → Ordered 0 es
      → All (λ e. is_dropped e.1 ≡ false) es
      → decisions (new_loop_guard w) es ≡ spec_decisions (new_loop_guard w).window [] (keys_of es)
  unfolding new_loop_guard lookup seen_within
  decisions-new_loop_guard w es o d =
      decisions-Simulates 0 (new_loop_guard w) [] es
        (record { unique = tt; agrees = λ k now le. refl }) o d
