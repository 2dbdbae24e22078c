-- ===== src/Middleware/LoopGuard/Window.antt =====
-- internal/middleware/loop_guard.go: what the window guarantees over any sequence of packets.
use netns_mcast_relay.Base.{
  ℕ, ◌+◌, ◌≤◌, ◌<◌, ◌≡◌, refl, true, none, List, [], ◌∷◌, Bytes, arith, ltb, Map, keep, ℤ, pos,
  negsuc, ◌*◌, ◌∙◌, Bool-cases, inl, inr, ◌||◌, not, ◌==◌, nat_eq, lookup, insert, lookup-insert,
  IsUnique, All,
}
use netns_mcast_relay.Middleware.{Packet}
use netns_mcast_relay.Middleware.LoopGuard.{
  LoopKey, loop_key_eq, loop_key_beq_iff, LoopGuard, is_live, cleanup, loop_key_for_packet, process,
  new_loop_guard,
}
use netns_mcast_relay.Middleware.LoopGuard.History.{Ordered}
use netns_mcast_relay.Middleware.LoopGuard.Entries.{
  window-cleanup, process-IsUnique, process-lookup, process_seen, window-process,
}

-- Every entry expires after `n - w`, and at `n + w` at the latest.
abbrev pub Kept : ℕ → ℕ → Map LoopKey ℕ → Type 0
Kept n w [] = Unit
Kept n w ((k, expires) ∷ m) = ((n < expires + w) × (expires ≤ n + w)) × Kept n w m

-- The next cleanup is at most a window away, or overdue by less than one; no entry expires a window
-- before it or more than a window after it.
pub record IsTended (now : ℕ) (g : LoopGuard) : Type 0 where
  pub due : g.next_cleanup ≤ now + g.window
  pub current : now < g.next_cleanup + g.window
  pub recent : Kept g.next_cleanup g.window g.seen

keep-Kept :
    (n now w : ℕ) (m : Map LoopKey ℕ)
    → n ≤ now
    → Kept n w m
    → Kept (now + w) w (keep (λ b. ltb now b.1) m)
keep-Kept n now w [] le a = tt
keep-Kept n now w ((k, e) ∷ m) le a = ground (arith, keep-Kept n now w m le a.1)

insert-Kept :
    (n w : ℕ) (k : LoopKey) (v : ℕ) (m : Map LoopKey ℕ)
    → n < v + w
    → v ≤ n + w
    → Kept n w m
    → Kept n w (insert k v m)
unfolding insert
insert-Kept n w k v [] h h' a = ((h, h'), tt)
insert-Kept n w k v ((j, u) ∷ m) h h' a = ground (arith, insert-Kept n w k v m)

Kept-lookup :
    (n w now : ℕ) (k : LoopKey) (m : Map LoopKey ℕ)
    → Kept n w m
    → is_live now (lookup k m) ≡ true
    → now < n + w
unfolding lookup
Kept-lookup n w now k [] a e = cc
Kept-lookup n w now k ((j, u) ∷ m) a e = ground (arith, Kept-lookup n w now k m a.1)

Kept-weaken :
    (n w n' w' : ℕ) (m : Map LoopKey ℕ)
    → n' + w ≤ n + w'
    → n + w ≤ n' + w'
    → Kept n w m
    → Kept n' w' m
Kept-weaken n w n' w' [] le le' a = tt
Kept-weaken n w n' w' ((k, e) ∷ m) le le' a =
    ((omega arith, omega arith), Kept-weaken n w n' w' m le le' a.1)

cleanup-IsTended :
    (t now : ℕ) (g : LoopGuard)
    → 0 < g.window
    → t ≤ now
    → IsTended t g
    → IsTended now (cleanup now g) × (now ≤ (cleanup now g).next_cleanup)
unfolding cleanup
cleanup-IsTended t now g wide le i =
    elim (Bool-cases (g.next_cleanup == 0 || not (ltb now g.next_cleanup))) [
      | inl e ↦ rw e (
        record {
          due = omega arith;
          current = omega arith;
          recent = keep-Kept g.next_cleanup now g.window g.seen (ground arith) i.recent;
        },
        omega arith,
      )
      | inr e ↦ rw e (
        record { due = omega (arith, i.due); current = ground arith; recent = i.recent },
        ground arith,
      )
    ]

window-pos : (w : ℤ) → 0 < (new_loop_guard w).window
unfolding new_loop_guard
window-pos (pos n) = ground arith
window-pos (negsuc n) = omega arith

new_loop_guard-IsTended : (w : ℤ) → IsTended 0 (new_loop_guard w)
unfolding new_loop_guard
new_loop_guard-IsTended w = record {
  due = omega arith;
  current = omega (arith, window-pos w);
  recent = tt;
}

-- The time of the last packet.
unfoldable pub last_time : ℕ → List (ℕ × Packet) → ℕ
last_time t [] = t
last_time t ((now, pkt) ∷ es) = last_time now es

module _ (md5 : Bytes → Bytes) where
  -- The guard after a sequence of packets.
  unfoldable pub after : LoopGuard → List (ℕ × Packet) → LoopGuard
  after g [] = g
  after g ((now, pkt) ∷ es) = after (process md5 now g pkt).0 es

  after-lookup :
      (later : ℕ) (g : LoopGuard) (k : LoopKey) (es : List (ℕ × Packet))
      → IsUnique g.seen
      → All (λ e. e.0 ≤ later) es
      → is_live later (lookup k g.seen) ≡ true
      → is_live later (lookup k (after g es).seen) ≡ true
  unfolding after
  after-lookup later g k [] u les e = e
  after-lookup later g k ((now, pkt) ∷ es) u (le, les) e =
      after-lookup later (process md5 now g pkt).0 k es (process-IsUnique md5 now g pkt u) les
        (process-lookup md5 now later g pkt k u le e)

  process-live :
      (now later : ℕ) (g : LoopGuard) (pkt : Packet)
      → (process md5 now g pkt).1 ≡ pkt
      → (pkt.payload ≡ none → ⊥)
      → later < now + g.window
      → is_live later (lookup (loop_key_for_packet md5 pkt) (process md5 now g pkt).0.seen) ≡ true
  unfolding process
  process-live now later g pkt through d h = ground (
    arith,
    loop_key_beq_iff (loop_key_for_packet md5 pkt) (loop_key_for_packet md5 pkt),
    lookup-insert (loop_key_for_packet md5 pkt) (loop_key_for_packet md5 pkt) (now + g.window)
        (cleanup now g).seen,
  )

  -- Once a packet has been let through, each copy of it (a packet of the same key) that comes less
  -- than a window later is dropped, whatever packets came in between, at times up to the copy's.
  pub process-after_copy :
      (now later : ℕ) (g : LoopGuard) (pkt copy : Packet) (es : List (ℕ × Packet))
      → IsUnique g.seen
      → (pkt.payload ≡ none → ⊥)
      → (process md5 now g pkt).1 ≡ pkt
      → loop_key_for_packet md5 copy ≡ loop_key_for_packet md5 pkt
      → later < now + g.window
      → All (λ e. e.0 ≤ later) es
      → (process md5 later (after (process md5 now g pkt).0 es) copy).1.payload ≡ none
  process-after_copy now later g pkt copy es u d through same h les =
      let g' = (process md5 now g pkt).0 in
      let live : is_live later (lookup (loop_key_for_packet md5 copy) (after g' es).seen) ≡ true =
        rw same (
          after-lookup later g' (loop_key_for_packet md5 pkt) es (process-IsUnique md5 now g pkt u)
            les (process-live now later g pkt through d h)) in
      rw (process_seen md5 later (after g' es) copy live)

  process-IsTended :
      (t now : ℕ) (g : LoopGuard) (pkt : Packet)
      → 0 < g.window
      → t ≤ now
      → IsTended t g
      → IsTended now (process md5 now g pkt).0
  unfolding process
  process-IsTended t now g pkt wide le i =
      let (c, ahead) = cleanup-IsTended t now g wide le i in
      elim (Bool-cases (is_live now (lookup (loop_key_for_packet md5 pkt) g.seen))) [
        | inl e ↦ rw e (record {
          due = omega (arith, i.due);
          current = Kept-lookup g.next_cleanup g.window now _ g.seen i.recent e;
          recent = i.recent;
        })
        | inr e ↦ rw e (record {
          due = c.due;
          current = c.current;
          recent =
              insert-Kept (cleanup now g).next_cleanup (cleanup now g).window
                (loop_key_for_packet md5 pkt) (now + g.window) (cleanup now g).seen
                (omega (arith, c.due, window-cleanup now g))
                (omega (arith, ahead, window-cleanup now g)) c.recent;
        })
      ]

  after-IsTended :
      (t : ℕ) (g : LoopGuard) (es : List (ℕ × Packet))
      → 0 < g.window
      → IsTended t g
      → Ordered t es
      → IsTended (last_time t es) (after g es) × ((after g es).window ≡ g.window)
  unfolding after last_time
  after-IsTended t g [] wide i o = (i, refl)
  after-IsTended t g ((now, pkt) ∷ es) wide i (le, o) =
      let w = window-process md5 now g pkt in
      let (i', w') =
        after-IsTended now (process md5 now g pkt).0 es (rw w wide)
          (process-IsTended t now g pkt wide le i) o in
      (i', w' ∙ w)

  -- After a new guard has seen any packets, at times that do not run backwards, every entry of its map
  -- expires within two windows of the last packet's time, on either side.
  pub after-new_loop_guard-Kept :
      (w : ℤ) (es : List (ℕ × Packet))
      → Ordered 0 es
      → Kept (last_time 0 es) (2 * (new_loop_guard w).window) (after (new_loop_guard w) es).seen
  after-new_loop_guard-Kept w es o =
      let g = new_loop_guard w in
      let (i, same) = after-IsTended 0 g es (window-pos w) (new_loop_guard-IsTended w) o in
      Kept-weaken (after g es).next_cleanup (after g es).window (last_time 0 es) (2 * g.window)
        (after g es).seen (omega (arith, i.current, same)) (omega (arith, i.due, same)) i.recent
