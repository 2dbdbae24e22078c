-- ===== src/Relay/Concurrent/Turns.antt =====
-- internal/relay/relay.go: the loops of the closure reconcile, path by path.
use mathlib.Core.Option.{none-ne-some}
use mathlib.Core.Bool.{false≢true}
use netns_mcast_relay.Base.{
  ℕ, ◌≡◌, refl, sym, ◌∙◌, Bool, true, false, Bool-cases, inl, inr, Option, none, some, [], ◌∷◌,
  Text, text_eq, text_beq, text_beq_iff, Map, lookup, insert, delete, lookup-insert, lookup-delete,
  if◌then◌else◌, arith, subst,
}
use netns_mcast_relay.Relay.Coordinator.{Pending}
use netns_mcast_relay.Relay.Coordinator.Reconcile.{is_some}
use netns_mcast_relay.Relay.Concurrent.{Pointers}

-- What is left of one path's pointer once the removals are done.
abbrev pub kept_of : Option Bool → Option ℕ → Option ℕ
kept_of del old = if is_some del then none else old

-- The removals that are left lead to what all of them make of the snapshot.
abbrev pub Removes : Map Text Bool → Pointers → Map Text Bool → Pointers → Type 0
Removes dels snap ds next =
    (p : Text) → kept_of (lookup p ds) (lookup p next) ≡ kept_of (lookup p dels) (lookup p snap)

pub Removes-skip :
    (dels : Map Text Bool) (snap : Pointers) (q : Text) (b : Bool) (ds : Map Text Bool)
    (next : Pointers)
    → lookup q next ≡ none
    → Removes dels snap ((q, b) ∷ ds) next
    → Removes dels snap ds next
unfolding lookup
Removes-skip dels snap q b ds next gone h p = ground (arith, gone, text_beq_iff q p, h p)

pub Removes-delete :
    (dels : Map Text Bool) (snap : Pointers) (q : Text) (b : Bool) (ds : Map Text Bool)
    (next : Pointers)
    → Removes dels snap ((q, b) ∷ ds) next
    → Removes dels snap ds (delete q next)
unfolding lookup
Removes-delete dels snap q b ds next h p =
    ground (arith, lookup-delete q p next, text_beq_iff q p, h p)

-- `Failed` tells of which paths an attempt at building them has failed.
module _ (Failed : Text → Type 0) where
  -- One path among the additions: whether its turn is still to come, whether it is wanted, the pointer
  -- that the removals left, and the pointer now.
  abbrev pub Progress : Text → Bool → Bool → Option ℕ → Option ℕ → Type 0
  Progress p left wanted (some id) new = new ≡ some id
  Progress p left false none new = (left ≡ false) × (new ≡ none)
  Progress p true true none new = Unit
  Progress p false true none new = new ≡ none → Failed p

  Progress-start : (p : Text) (wanted : Bool) (kept : Option ℕ) → Progress p wanted wanted kept kept
  Progress-start p true none = tt
  Progress-start p false none = (refl, refl)
  Progress-start p wanted (some id) = refl

  -- Its turn comes: there is an instance already, or the build fails, or it gives one.
  Progress-there :
      (p : Text) (left wanted : Bool) (kept : Option ℕ) (id : ℕ) (new : Option ℕ)
      → new ≡ some id
      → Progress p true wanted kept new
      → Progress p left wanted kept new
  Progress-there p left wanted (some j) id new there h = h
  Progress-there p left false none id new there h = absurd (false≢true (sym h.0))
  Progress-there p true true none id new there h = tt
  Progress-there p false true none id new there h =
      λ gone. absurd (none-ne-some _ (sym gone ∙ there))

  Progress-failed :
      (p : Text) (left wanted : Bool) (kept new : Option ℕ)
      → Failed p
      → Progress p true wanted kept new
      → Progress p left wanted kept new
  Progress-failed p left wanted (some j) new failed h = h
  Progress-failed p left false none new failed h = absurd (false≢true (sym h.0))
  Progress-failed p true true none new failed h = tt
  Progress-failed p false true none new failed h = λ gone. failed

  Progress-built :
      (p : Text) (left wanted : Bool) (kept : Option ℕ) (new : Option ℕ) (id : ℕ)
      → new ≡ none
      → Progress p true wanted kept new
      → Progress p left wanted kept (some id)
  Progress-built p left wanted (some j) new id free h = absurd (none-ne-some _ (sym free ∙ h))
  Progress-built p left false none new id free h = absurd (false≢true (sym h.0))
  Progress-built p true true none new id free h = tt
  Progress-built p false true none new id free h = λ gone. absurd (none-ne-some _ (sym gone))

  abbrev pub Adds : Pending → Pointers → Map Text Bool → Pointers → Type 0
  Adds pending snap ps next =
      (p : Text)
      → Progress p (is_some (lookup p ps)) (is_some (lookup p pending.pending_add))
          (kept_of (lookup p pending.pending_del) (lookup p snap)) (lookup p next)

  pub Adds-start :
      (pending : Pending) (snap next : Pointers)
      → Removes pending.pending_del snap [] next
      → Adds pending snap pending.pending_add next
  unfolding lookup
  Adds-start pending snap next h p =
      subst
        (λ kept.
          Progress p (is_some (lookup p pending.pending_add))
            (is_some (lookup p pending.pending_add)) kept (lookup p next))
        (h p) (Progress-start p (is_some (lookup p pending.pending_add)) (lookup p next))

  -- The turn of `q` is over. The other paths are as before.
  turn :
      (pending : Pending) (snap : Pointers) (q : Text) (b : Bool) (ps : Map Text Bool)
      (next next' : Pointers)
      → Adds pending snap ((q, b) ∷ ps) next
      → ((p : Text) → text_beq q p ≡ false → lookup p next' ≡ lookup p next)
      → ((left wanted : Bool) (kept : Option ℕ)
          → Progress q true wanted kept (lookup q next)
          → Progress q left wanted kept (lookup q next'))
      → Adds pending snap ps next'
  unfolding lookup
  turn pending snap q b ps next next' h others own p = elim (Bool-cases (text_beq q p)) [
    | inl same ↦
        subst
          (λ x.
            Progress x (is_some (lookup x ps)) (is_some (lookup x pending.pending_add))
              (kept_of (lookup x pending.pending_del) (lookup x snap)) (lookup x next'))
          ((text_beq_iff q p).0 same)
          (own (is_some (lookup q ps)) (is_some (lookup q pending.pending_add))
            (kept_of (lookup q pending.pending_del) (lookup q snap))
            (rw ((text_beq_iff q q).1 refl) at (h q)))
    | inr other ↦ rw (others p other) (rw other at (h p))
  ]

  pub Adds-there :
      (pending : Pending) (snap : Pointers) (q : Text) (b : Bool) (ps : Map Text Bool)
      (next : Pointers) (id : ℕ)
      → lookup q next ≡ some id
      → Adds pending snap ((q, b) ∷ ps) next
      → Adds pending snap ps next
  Adds-there pending snap q b ps next id there h =
      turn pending snap q b ps next next h (λ p other. refl)
        (λ left wanted kept k. Progress-there q left wanted kept id (lookup q next) there k)

  pub Adds-failed :
      (pending : Pending) (snap : Pointers) (q : Text) (b : Bool) (ps : Map Text Bool)
      (next : Pointers)
      → Failed q
      → Adds pending snap ((q, b) ∷ ps) next
      → Adds pending snap ps next
  Adds-failed pending snap q b ps next failed h =
      turn pending snap q b ps next next h (λ p other. refl)
        (λ left wanted kept k. Progress-failed q left wanted kept (lookup q next) failed k)

  pub Adds-built :
      (pending : Pending) (snap : Pointers) (q : Text) (b : Bool) (ps : Map Text Bool)
      (next : Pointers) (id : ℕ)
      → lookup q next ≡ none
      → Adds pending snap ((q, b) ∷ ps) next
      → Adds pending snap ps (insert q id next)
  Adds-built pending snap q b ps next id free h =
      turn pending snap q b ps next (insert q id next) h
        (λ p other. rw (lookup-insert q p id next, other) refl)
        (λ left wanted kept k.
          rw (lookup-insert q q id next, (text_beq_iff q q).1 refl)
            (Progress-built q left wanted kept (lookup q next) id free k))

module _ (F G : Text → Type 0) (more : (p : Text) → F p → G p) where
  Progress-mono :
      (p : Text) (left wanted : Bool) (kept new : Option ℕ)
      → Progress F p left wanted kept new
      → Progress G p left wanted kept new
  Progress-mono p left wanted (some id) new h = h
  Progress-mono p left false none new h = h
  Progress-mono p true true none new h = tt
  Progress-mono p false true none new h = λ gone. more p (h gone)

  -- More attempts may have failed.
  pub Adds-mono :
      (pending : Pending) (snap : Pointers) (ps : Map Text Bool) (next : Pointers)
      → Adds F pending snap ps next
      → Adds G pending snap ps next
  Adds-mono pending snap ps next h p =
      Progress-mono p (is_some (lookup p ps)) (is_some (lookup p pending.pending_add))
        (kept_of (lookup p pending.pending_del) (lookup p snap)) (lookup p next) (h p)
