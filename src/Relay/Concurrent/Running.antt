-- ===== src/Relay/Concurrent/Running.antt =====
-- internal/relay/relay.go: an instance runs with all its goroutines until its context is cancelled.
use mathlib.Core.List.{map-append}
use mathlib.Core.Option.{some-injective}
use netns_mcast_relay.Base.{
  ℕ, ◌≡◌, ◌≢◌, refl, sym, ◌∙◌, ap, Bool, true, false, Bool-cases, inl, inr, Option, none, some,
  List, [], ◌∷◌, ◌++◌, map, Text, text_eq, nat_eq, ◌==◌, Map, lookup, insert, delete, AllEntries,
  insert-AllEntries, lookup-AllEntries, lookup-insert, eqb_iff, text_beq_iff, arith,
}
use netns_mcast_relay.Middleware.{Packet}
use netns_mcast_relay.Relay.{Instance}
use netns_mcast_relay.Relay.Broadcast.{visit}
use netns_mcast_relay.Relay.Concurrent.Heap.{Points, Refs, at-insert}
use netns_mcast_relay.Relay.Concurrent.{
  Runner, Pointers, launch, cancel_runner, cancel_all, visited, unqueue,
}

map-launch :
    {S : Type 0} (ss : List S) → map (λ (b : S × Option Packet). b.0) (map (λ s. (s, none)) ss) ≡ ss
map-launch [] = refl
map-launch (s ∷ ss) = ap (λ l. s ∷ l) (map-launch ss)

module _ {H S : Type 0} where
  -- The handle is open, the send worker runs, and so does a receiver on each socket.
  pub record Runs (r : Runner H S) : Type 0 where
    pub worker : r.worker ≡ true
    pub open_handle : r.closed ≡ false
    pub receivers : map (λ (b : S × Option Packet). b.0) r.receivers ≡ r.inst.sockets

  -- It does unless its context was cancelled.
  abbrev pub RunsUnlessCancelled : Runner H S → Type 0
  RunsUnlessCancelled r = r.inst.cancelled ≡ false → Runs r

  abbrev pub AllRun : Map ℕ (Runner H S) → Type 0
  AllRun heap = AllEntries (λ id r. RunsUnlessCancelled r) heap

  pub insert-AllRun :
      (heap : Map ℕ (Runner H S)) (id : ℕ) (r r' : Runner H S)
      → lookup id heap ≡ some r
      → (RunsUnlessCancelled r → RunsUnlessCancelled r')
      → AllRun heap
      → AllRun (insert id r' heap)
  insert-AllRun heap id r r' found k a =
      insert-AllEntries (λ _ q. RunsUnlessCancelled q) id r' heap
        (k (lookup-AllEntries (λ _ q. RunsUnlessCancelled q) id heap r a found)) a

  pub cancelled-Runs : (r : Runner H S) → r.inst.cancelled ≡ true → RunsUnlessCancelled r
  cancelled-Runs r c h = cc

  pub cancel_all-AllRun : (heap : Map ℕ (Runner H S)) → AllRun heap → AllRun (cancel_all heap)
  unfolding cancel_all
  cancel_all-AllRun [] a = tt
  cancel_all-AllRun ((id, r) ∷ heap) a =
      (cancelled-Runs (cancel_runner r) refl, cancel_all-AllRun heap a.1)

  pub launch-Runs : (done : Bool) (inst : Instance H S) → Runs (launch done inst)
  launch-Runs done inst = record {
    worker = refl;
    open_handle = refl;
    receivers = map-launch inst.sockets;
  }

  -- A receiver changes what it holds.
  pub holds-Runs :
      (r : Runner H S) (before after : List (S × Option Packet)) (sock : S) (x y : Option Packet)
      → r.receivers ≡ before ++ (sock, x) ∷ after
      → RunsUnlessCancelled r
      → RunsUnlessCancelled (record r { receivers = before ++ (sock, y) ∷ after })
  holds-Runs r before after sock x y e k h =
      let runs = k h in
      record {
        worker = runs.worker;
        open_handle = runs.open_handle;
        receivers =
            map-append (λ (b : S × Option Packet). b.0) before ((sock, y) ∷ after)
            ∙ sym (map-append (λ (b : S × Option Packet). b.0) before ((sock, x) ∷ after))
            ∙ ap (map (λ (b : S × Option Packet). b.0)) (sym e)
            ∙ runs.receivers;
      }

  pub visited-Runs :
      (pkt : Packet) (path : Text) (r : Runner H S)
      → RunsUnlessCancelled r
      → RunsUnlessCancelled (visited pkt path r)
  visited-Runs pkt path r k h =
      let runs = k (visit-live pkt path r.inst ∙ h) in
      record {
        worker = runs.worker;
        open_handle = runs.open_handle;
        receivers = runs.receivers ∙ visit-sockets pkt path r.inst;
      }
    where
      visit-live :
          (pkt : Packet) (path : Text) (inst : Instance H S)
          → inst.cancelled ≡ (visit pkt path inst).cancelled
      visit-live pkt path inst = ground arith

      visit-sockets :
          (pkt : Packet) (path : Text) (inst : Instance H S)
          → inst.sockets ≡ (visit pkt path inst).sockets
      visit-sockets pkt path inst = ground arith

  pub unqueue-Runs :
      (rest : List Packet) (r : Runner H S)
      → RunsUnlessCancelled r
      → RunsUnlessCancelled (unqueue rest r)
  unqueue-Runs rest r k h =
      let runs = k h in
      record { worker = runs.worker; open_handle = runs.open_handle; receivers = runs.receivers }

  -- The instances that a map points to are not cancelled.
  abbrev pub IsLive : Map ℕ (Runner H S) → ℕ → Type 0
  IsLive heap id = (r : Runner H S) × (lookup id heap ≡ some r) × (r.inst.cancelled ≡ false)

  abbrev pub LiveRefs : Map ℕ (Runner H S) → Pointers → Type 0
  LiveRefs heap m = AllEntries (λ path id. IsLive heap id) m

  pub LiveRefs-map :
      (heap heap' : Map ℕ (Runner H S)) (m : Pointers)
      → ((id : ℕ) → IsLive heap id → IsLive heap' id)
      → LiveRefs heap m
      → LiveRefs heap' m
  LiveRefs-map heap heap' [] k a = tt
  LiveRefs-map heap heap' ((path, id) ∷ m) k a = (k id a.0, LiveRefs-map heap heap' m k a.1)

  pub IsLive-insert :
      (heap : Map ℕ (Runner H S)) (id : ℕ) (r r' : Runner H S) (j : ℕ)
      → lookup id heap ≡ some r
      → (r.inst.cancelled ≡ false → r'.inst.cancelled ≡ false)
      → IsLive heap j
      → IsLive (insert id r' heap) j
  IsLive-insert heap id r r' j found k =
      at-insert (λ q. q.inst.cancelled ≡ false) heap id r r' j found k

  -- Another instance than the one that is changed.
  IsLive-other :
      (heap : Map ℕ (Runner H S)) (id : ℕ) (r r' : Runner H S) (path p : Text) (j : ℕ)
      → lookup id heap ≡ some r
      → r.inst.path ≡ p
      → path ≢ p
      → Points heap path j
      → IsLive heap j
      → IsLive (insert id r' heap) j
  IsLive-other heap id r r' path p j found named other (q, e, listed) (q', e', live) =
      elim (Bool-cases (id == j)) [
        | inl b ↦
            let same : id ≡ j = (eqb_iff id j).0 b in
            let one : q ≡ r =
              some-injective _ _ (sym e ∙ sym (ap (λ k. lookup k heap) same) ∙ found) in
            absurd (other (sym listed ∙ ap (λ x. x.inst.path) one ∙ named))
        | inr b ↦ (q', rw (lookup-insert id j r' heap, b) e', live)
      ]

  -- Once its entry is gone from a map, an instance may be cancelled.
  pub delete-LiveRefs :
      (heap : Map ℕ (Runner H S)) (id : ℕ) (r r' : Runner H S) (p : Text) (m : Pointers)
      → lookup id heap ≡ some r
      → r.inst.path ≡ p
      → Refs heap m
      → LiveRefs heap m
      → LiveRefs (insert id r' heap) (delete p m)
  unfolding delete
  delete-LiveRefs heap id r r' p [] found named refs live = tt
  delete-LiveRefs heap id r r' p ((path, j) ∷ m) found named refs live =
      let rest = delete-LiveRefs heap id r r' p m found named refs.1 live.1 in
      elim (Bool-cases (path == p)) [
        | inl b ↦ rw b rest
        | inr b ↦ rw b (
          IsLive-other heap id r r' path p j found named (λ e. cc ((text_beq_iff path p).1 e))
              refs.0 live.0,
          rest,
        )
      ]
