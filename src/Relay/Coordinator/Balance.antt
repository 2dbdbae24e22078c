-- ===== src/Relay/Coordinator/Balance.antt =====
-- internal/relay/relay.go: the file descriptors that the active namespaces hold, over a reconcile and
-- at shutdown.
use netns_mcast_relay.Base.{
  ℕ, ◌+◌, ◌*◌, ◌≤◌, ◌≡◌, refl, Bool, Option, none, some, List, [], ◌∷◌, Text, text_eq, text_beq_iff,
  Map, lookup, insert, delete, IsUnique, delete-IsUnique, length, arith, Option-cases, inl, inr,
}
use netns_mcast_relay.Net.{UdpAddr}
use netns_mcast_relay.Relay.{Platform, Instance}
use netns_mcast_relay.Relay.Namespace.{teardown}
use netns_mcast_relay.Relay.Namespace.Descriptors.{
  Ledger, instance_cost, Accounted, build_instance-Accounted, held-teardown,
}
use netns_mcast_relay.Relay.Coordinator.{
  Pending, Snapshot, apply_removals, add_built, add_one, apply_additions, reconcile, on_done,
}

module _ {W H S F : Type 0} (os : Platform W H S) (l : Ledger F os) where
  open l use {held, leak}

  unfoldable pub snapshot_cost : Snapshot os → F → ℕ
  snapshot_cost [] x = 0
  snapshot_cost ((p, inst) ∷ m) x = instance_cost os l inst x + snapshot_cost m x

  snapshot_cost-insert :
      (p : Text) (inst : Instance H S) (m : Snapshot os) (x : F)
      → lookup p m ≡ none
      → snapshot_cost (insert p inst m) x ≡ snapshot_cost m x + instance_cost os l inst x
  unfolding snapshot_cost insert lookup
  snapshot_cost-insert p inst [] x h = omega arith
  snapshot_cost-insert p inst ((q, i) ∷ m) x h = ground (arith, snapshot_cost-insert p inst m x)

  snapshot_cost-delete-none :
      (p : Text) (m : Snapshot os) (x : F)
      → lookup p m ≡ none
      → snapshot_cost (delete p m) x ≡ snapshot_cost m x
  unfolding snapshot_cost delete lookup
  snapshot_cost-delete-none p [] x h = refl
  snapshot_cost-delete-none p ((q, i) ∷ m) x h = ground (arith, snapshot_cost-delete-none p m x)

  snapshot_cost-delete :
      (p : Text) (inst : Instance H S) (m : Snapshot os) (x : F)
      → IsUnique m
      → lookup p m ≡ some inst
      → snapshot_cost (delete p m) x + instance_cost os l inst x ≡ snapshot_cost m x
  unfolding snapshot_cost delete lookup
  snapshot_cost-delete p inst [] x u h = cc
  snapshot_cost-delete p inst ((q, i) ∷ m) x u h = ground (
    arith,
    text_beq_iff q p,
    snapshot_cost-delete p inst m x u.1,
    snapshot_cost-delete-none q m x u.0,
  )

  -- Between two moments what is open changes by what the snapshot's cost changes by, but for at most
  -- `n` leaks.
  abbrev pub Balance : ℕ → Snapshot os × W → Snapshot os × W → Type 0
  Balance n (cur, w) (next, w') =
      (x : F)
      → (held x w + snapshot_cost next x ≤ held x w' + snapshot_cost cur x)
        × (held x w' + snapshot_cost cur x ≤ held x w + snapshot_cost next x + n * leak)

  apply_removals-Balance :
      (ds : Map Text Bool) (cur : Snapshot os) (w : W)
      → IsUnique cur
      → ((x : F) → snapshot_cost cur x ≤ held x w)
      → Balance 0 (cur, w) (apply_removals os ds cur w)
  unfolding apply_removals
  apply_removals-Balance [] cur w u h = λ x. (omega arith, omega arith)
  apply_removals-Balance ((p, _) ∷ ds) cur w u h = elim (Option-cases (lookup p cur)) [
    | inl gone ↦ rw (gone, apply_removals) (apply_removals-Balance ds cur w u h)
    | inr (inst, found) ↦
        let c = λ (x : F). snapshot_cost-delete p inst cur x u found in
        let t = held-teardown os l inst w (λ y. omega (arith, c y, h y)) in
        let rest =
          apply_removals-Balance ds (delete p cur) (teardown os inst w) (delete-IsUnique p cur u)
            (λ y. omega (arith, c y, t y, h y)) in
        rw (found, apply_removals)
          (λ x. (omega (arith, c x, t x, (rest x).0), omega (arith, c x, t x, (rest x).1)))
  ]

  add_built-Balance :
      (p : Text) (cur : Snapshot os) (w : W) (r : Option (Instance H S) × W)
      → lookup p cur ≡ none
      → Accounted os l w r
      → Balance 1 (cur, w) (add_built os p cur r)
  add_built-Balance p cur w (none, w') gone a =
      λ x. (omega (arith, (a x).0), omega (arith, (a x).1))
  add_built-Balance p cur w (some inst, w') gone a = λ x.
      let c = snapshot_cost-insert p inst cur x gone in
      (omega (arith, a x, c), omega (arith, a x, c))

  add_one-Balance :
      (groups : List UdpAddr) (p : Text) (cur : Snapshot os) (w : W)
      → Balance 1 (cur, w) (add_one os groups p cur w)
  unfolding add_one
  add_one-Balance groups p cur w = elim (Option-cases (lookup p cur)) [
    | inl gone ↦
        rw (gone, add_one)
          (add_built-Balance p cur w _ gone (build_instance-Accounted os l groups p w))
    | inr (inst, found) ↦ rw (found, add_one) (λ x. (omega arith, omega arith))
  ]

  apply_additions-Balance :
      (groups : List UdpAddr) (ds : Map Text Bool) (cur : Snapshot os) (w : W)
      → Balance (length ds) (cur, w) (apply_additions os groups ds cur w)
  unfolding apply_additions
  apply_additions-Balance groups [] cur w = λ x. (omega arith, omega arith)
  apply_additions-Balance groups ((p, _) ∷ ds) cur w =
      let r = add_one os groups p cur w in
      let one = add_one-Balance groups p cur w in
      let rest = apply_additions-Balance groups ds r.0 r.1 in
      λ x. (omega (arith, (one x).0, (rest x).0), grind (arith, (one x).1, (rest x).1))

  -- A reconcile opens what the namespaces that it adds cost and closes what those that it removes
  -- cost, of every resource that is counted; only a namespace that fails to open can leave some open,
  -- at most `leak` for each path to add. No path is listed twice, and what the active namespaces hold is
  -- open.
  pub reconcile-Balance :
      (groups : List UdpAddr) (s : Pending) (cur : Snapshot os) (w : W)
      → IsUnique cur
      → ((x : F) → snapshot_cost cur x ≤ held x w)
      → let r = reconcile os groups s cur w in Balance (length s.pending_add) (cur, w) (r.1, r.2)
  unfolding reconcile
  reconcile-Balance groups s cur w u h =
      let kept = apply_removals os s.pending_del cur w in
      let less = apply_removals-Balance s.pending_del cur w u h in
      let more = apply_additions-Balance groups s.pending_add kept.0 kept.1 in
      λ x. (omega (arith, (less x).0, (more x).0), omega (arith, (less x).1, (more x).1))

  -- At shutdown the relay closes exactly what the active namespaces hold, if that much is open.
  pub held-on_done :
      (cur : Snapshot os) (w : W)
      → ((x : F) → snapshot_cost cur x ≤ held x w)
      → (x : F) → held x (on_done os cur w).1 + snapshot_cost cur x ≡ held x w
  unfolding on_done snapshot_cost
  held-on_done [] w h x = omega arith
  held-on_done ((p, inst) ∷ m) w h x =
      let t = held-teardown os l inst w (λ y. omega (arith, h y)) in
      omega (arith, t x, held-on_done m (teardown os inst w) (λ y. omega (arith, h y, t y)) x)
