-- ===== src/Relay/Concurrent/Heap.antt =====
-- internal/relay/relay.go: pointers to instances stay good while the instances change.
use netns_mcast_relay.Base.{true, subst}
use mathlib.Core.Option.{some-injective}
use netns_mcast_relay.Base.{
  ℕ, ◌≡◌, refl, sym, ◌∙◌, ap, Bool-cases, inl, inr, none, some, [], ◌∷◌, Text, text_eq, nat_eq,
  ◌==◌, Map, lookup, insert, lookup-insert, AllEntries, eqb_iff,
}
use netns_mcast_relay.Relay.Concurrent.{Runner, Pointers, cancel_runner, cancel_all}

module _ {H S : Type 0} where
  -- There is an instance at the address, and it bears the path.
  abbrev pub Points : Map ℕ (Runner H S) → Text → ℕ → Type 0
  Points heap path id = (r : Runner H S) × (lookup id heap ≡ some r) × (r.inst.path ≡ path)

  abbrev pub Refs : Map ℕ (Runner H S) → Pointers → Type 0
  Refs heap m = AllEntries (Points heap) m

  -- The instance at the address is being torn down.
  abbrev pub Stopping : Map ℕ (Runner H S) → ℕ → Type 0
  Stopping heap id = (r : Runner H S) × (lookup id heap ≡ some r) × (r.inst.cancelled ≡ true)

  -- Every pointer that was good is good in the other heap, and what was being torn down still is.
  abbrev pub Keeps : Map ℕ (Runner H S) → Map ℕ (Runner H S) → Type 0
  Keeps heap heap' =
      ((path : Text) (id : ℕ) → Points heap path id → Points heap' path id)
      × ((id : ℕ) → Stopping heap id → Stopping heap' id)

  pub Refs-Keeps :
      (heap heap' : Map ℕ (Runner H S)) (m : Pointers)
      → Keeps heap heap'
      → Refs heap m
      → Refs heap' m
  Refs-Keeps heap heap' [] k a = tt
  Refs-Keeps heap heap' ((path, id) ∷ m) k a = (k.0 path id a.0, Refs-Keeps heap heap' m k a.1)

  -- What holds of the path and the cancellation of an instance holds of the changed one.
  pub at-insert :
      (P : Runner H S → Type 0) (heap : Map ℕ (Runner H S)) (id : ℕ) (r r' : Runner H S) (j : ℕ)
      → lookup id heap ≡ some r
      → (P r → P r')
      → (q : Runner H S) × (lookup j heap ≡ some q) × P q
      → (q : Runner H S) × (lookup j (insert id r' heap) ≡ some q) × P q
  at-insert P heap id r r' j found keeps (q, e, p) = elim (Bool-cases (id == j)) [
    | inl b ↦
        let here : id ≡ j = (eqb_iff id j).0 b in
        let one : q ≡ r = some-injective _ _ (sym e ∙ sym (ap (λ k. lookup k heap) here) ∙ found) in
        (r', rw (lookup-insert id j r' heap, b) refl, keeps (subst P one p))
    | inr b ↦ (q, rw (lookup-insert id j r' heap, b) e, p)
  ]

  pub at-fresh :
      (P : Runner H S → Type 0) (heap : Map ℕ (Runner H S)) (id : ℕ) (r : Runner H S) (j : ℕ)
      → lookup id heap ≡ none
      → (q : Runner H S) × (lookup j heap ≡ some q) × P q
      → (q : Runner H S) × (lookup j (insert id r heap) ≡ some q) × P q
  at-fresh P heap id r j free (q, e, p) = elim (Bool-cases (id == j)) [
    | inl b ↦
        let here : id ≡ j = (eqb_iff id j).0 b in
        let clash : none ≡ some q = sym free ∙ ap (λ k. lookup k heap) here ∙ e in cc
    | inr b ↦ (q, rw (lookup-insert id j r heap, b) e, p)
  ]

  pub Keeps-insert :
      (heap : Map ℕ (Runner H S)) (id : ℕ) (r r' : Runner H S)
      → lookup id heap ≡ some r
      → r'.inst.path ≡ r.inst.path
      → (r.inst.cancelled ≡ true → r'.inst.cancelled ≡ true)
      → Keeps heap (insert id r' heap)
  Keeps-insert heap id r r' found same still = (
    λ path j. at-insert (λ q. q.inst.path ≡ path) heap id r r' j found (λ p. same ∙ p),
    λ j. at-insert (λ q. q.inst.cancelled ≡ true) heap id r r' j found still,
  )

  pub Keeps-fresh :
      (heap : Map ℕ (Runner H S)) (id : ℕ) (r : Runner H S)
      → lookup id heap ≡ none
      → Keeps heap (insert id r heap)
  Keeps-fresh heap id r free = (
    λ path j. at-fresh (λ q. q.inst.path ≡ path) heap id r j free,
    λ j. at-fresh (λ q. q.inst.cancelled ≡ true) heap id r j free,
  )

  pub lookup-cancel_all :
      (heap : Map ℕ (Runner H S)) (id : ℕ) (r : Runner H S)
      → lookup id heap ≡ some r
      → lookup id (cancel_all heap) ≡ some (cancel_runner r)
  unfolding lookup cancel_all
  lookup-cancel_all [] id r h = cc
  lookup-cancel_all ((j, q) ∷ heap) id r h = elim (Bool-cases (j == id)) [
    | inl b ↦ rw b (ap (λ x. some (cancel_runner x)) (some-injective _ _ (rw b at h)))
    | inr b ↦ rw b (lookup-cancel_all heap id r (rw b at h))
  ]

  pub Keeps-cancel_all : (heap : Map ℕ (Runner H S)) → Keeps heap (cancel_all heap)
  Keeps-cancel_all heap = (
    λ path id (r, e, p). (cancel_runner r, lookup-cancel_all heap id r e, p),
    λ id (r, e, p). (cancel_runner r, lookup-cancel_all heap id r e, refl),
  )

  pub Points-insert :
      (heap : Map ℕ (Runner H S)) (id : ℕ) (r : Runner H S)
      → Points (insert id r heap) r.inst.path id
  Points-insert heap id r = (r, rw (lookup-insert id id r heap, (eqb_iff id id).1 refl) refl, refl)
