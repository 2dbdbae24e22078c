-- ===== src/Middleware/LoopGuard/Entries.antt =====
-- internal/middleware/loop_guard.go: what one call of Process does to the entries of the map.
use netns_mcast_relay.Base.{
  ℕ, ◌+◌, ◌≤◌, ◌≡◌, refl, true, false, Option, none, some, Bytes, arith, ltb, lookup, insert,
  lookup-insert, lookup-keep, IsUnique, keep-IsUnique, insert-IsUnique, guarded,
}
use netns_mcast_relay.Middleware.{Packet}
use netns_mcast_relay.Middleware.LoopGuard.{
  LoopKey, loop_key_eq, loop_key_beq_iff, LoopGuard, is_live, cleanup, loop_key_for_packet, process,
}

guarded-live :
    (now later : ℕ) (o : Option ℕ)
    → now ≤ later
    → is_live later (guarded (ltb now) o) ≡ is_live later o
guarded-live now later none h = refl
guarded-live now later (some e) h = ground arith

-- Cleanup forgets no entry that a later test would find.
pub live-cleanup :
    (now later : ℕ) (g : LoopGuard) (k : LoopKey)
    → IsUnique g.seen
    → now ≤ later
    → is_live later (lookup k (cleanup now g).seen) ≡ is_live later (lookup k g.seen)
unfolding cleanup
live-cleanup now later g k u h =
    ground (arith, lookup-keep (ltb now) k g.seen u, guarded-live now later (lookup k g.seen) h)

pub cleanup-IsUnique : (now : ℕ) (g : LoopGuard) → IsUnique g.seen → IsUnique (cleanup now g).seen
unfolding cleanup
cleanup-IsUnique now g u = ground (arith, keep-IsUnique (ltb now) g.seen u)

pub window-cleanup : (now : ℕ) (g : LoopGuard) → (cleanup now g).window ≡ g.window
unfolding cleanup
window-cleanup now g = ground arith

module _ (md5 : Bytes → Bytes) where
  pub process-IsUnique :
      (now : ℕ) (g : LoopGuard) (pkt : Packet)
      → IsUnique g.seen
      → IsUnique (process md5 now g pkt).0.seen
  unfolding process
  process-IsUnique now g pkt u = ground (
    arith,
    cleanup-IsUnique now g u,
    insert-IsUnique (loop_key_for_packet md5 pkt) (now + g.window) (cleanup now g).seen,
  )

  pub window-process :
      (now : ℕ) (g : LoopGuard) (pkt : Packet) → (process md5 now g pkt).0.window ≡ g.window
  unfolding process cleanup
  window-process now g pkt = ground arith

  -- The two branches of Process.
  pub process_seen :
      (now : ℕ) (g : LoopGuard) (pkt : Packet)
      → is_live now (lookup (loop_key_for_packet md5 pkt) g.seen) ≡ true
      → process md5 now g pkt ≡ (g, record pkt { payload = none })
  unfolding process
  process_seen now g pkt e = rw e

  pub process_fresh :
      (now : ℕ) (g : LoopGuard) (pkt : Packet)
      → is_live now (lookup (loop_key_for_packet md5 pkt) g.seen) ≡ false
      → process md5 now g pkt ≡ (
        record (cleanup now g) {
          seen = insert (loop_key_for_packet md5 pkt) (now + g.window) (cleanup now g).seen;
        },
        pkt,
      )
  unfolding process
  process_fresh now g pkt e = rw e

  -- An entry that outlives `later` is still there at `later`, whatever comes in between.
  pub process-lookup :
      (now later : ℕ) (g : LoopGuard) (pkt : Packet) (k : LoopKey)
      → IsUnique g.seen
      → now ≤ later
      → is_live later (lookup k g.seen) ≡ true
      → is_live later (lookup k (process md5 now g pkt).0.seen) ≡ true
  unfolding process
  process-lookup now later g pkt k u le e = ground (
    arith,
    live-cleanup now later g k u le,
    loop_key_beq_iff (loop_key_for_packet md5 pkt) k,
    lookup-insert (loop_key_for_packet md5 pkt) k (now + g.window) (cleanup now g).seen,
  )
