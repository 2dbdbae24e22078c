-- ===== src/Base/Assoc.antt =====
-- A Go map as an association list. An iteration (`for k, v := range m`) goes through the list, and
-- Go's unspecified order is any order of the list: what is proved holds of each of them.
use Prim.Native.Nat.{◌≤◌, suc}
use mathlib.Core.Path.{◌≡◌, refl, subst₂}
use mathlib.Core.Logic.{inl, inr}
use mathlib.Core.Bool.{Bool}
use mathlib.Core.List.{List, [], ◌∷◌}
use mathlib.Core.Option.{Option, none, some, some-injective}
use native.Mathlib.Omega.{arith}
use netns_mcast_relay.Base.Tests.{if◌then◌else◌, Bool-cases}
use netns_mcast_relay.Base.Keys.{Eq}
use netns_mcast_relay.Base.Lists.{length, keep}

abbrev pub Map {ℓ κ} : Type ℓ → Type κ → Type (ℓ ⊔ κ)
Map K V = List (K × V)

-- The value that passes a test.
abbrev pub guarded {κ} : {V : Type κ} → (V → Bool) → Option V → Option V
guarded p none = none
guarded p (some v) = if p v then some v else none

module _ {ℓ κ} {K : Type ℓ} {V : Type κ} ⦃e : Eq K⦄ where
  unfoldable pub lookup : K → Map K V → Option V
  lookup k [] = none
  lookup k ((j, v) ∷ m) = if e.beq j k then some v else lookup k m

  -- `m[k] = v`
  unfoldable pub insert : K → V → Map K V → Map K V
  insert k v [] = (k, v) ∷ []
  insert k v ((j, w) ∷ m) = if e.beq j k then (k, v) ∷ m else (j, w) ∷ insert k v m

  -- `delete(m, k)`
  unfoldable pub delete : K → Map K V → Map K V
  delete k [] = []
  delete k ((j, w) ∷ m) = if e.beq j k then delete k m else (j, w) ∷ delete k m

  -- No key stands twice.
  abbrev pub IsUnique : Map K V → Type κ
  IsUnique [] = Unit
  IsUnique ((k, v) ∷ m) = (lookup k m ≡ none) × IsUnique m

  pub lookup-insert :
      (k j : K) (v : V) (m : Map K V)
      → lookup j (insert k v m) ≡ (if e.beq k j then some v else lookup j m)
  unfolding lookup insert
  lookup-insert k j v [] = refl
  lookup-insert k j v ((i, w) ∷ m) =
      ground (arith, e.beq_iff k j, e.beq_iff i k, e.beq_iff i j, lookup-insert k j v m)

  pub lookup-delete :
      (k j : K) (m : Map K V) → lookup j (delete k m) ≡ (if e.beq k j then none else lookup j m)
  unfolding lookup delete
  lookup-delete k j [] = ground arith
  lookup-delete k j ((i, w) ∷ m) =
      ground (arith, e.beq_iff k j, e.beq_iff i k, e.beq_iff i j, lookup-delete k j m)

  pub insert-IsUnique : (k : K) (v : V) (m : Map K V) → IsUnique m → IsUnique (insert k v m)
  unfolding lookup insert
  insert-IsUnique k v [] u = (refl, tt)
  insert-IsUnique k v ((i, w) ∷ m) u =
      ground (arith, e.beq_iff i k, e.beq_iff k i, insert-IsUnique k v m u.1, lookup-insert k i v m)

  pub delete-IsUnique : (k : K) (m : Map K V) → IsUnique m → IsUnique (delete k m)
  unfolding lookup delete
  delete-IsUnique k [] u = tt
  delete-IsUnique k ((i, w) ∷ m) u =
      ground (arith, e.beq_iff i k, delete-IsUnique k m u.1, lookup-delete k i m)

  pub lookup-keep-none :
      (p : V → Bool) (k : K) (m : Map K V)
      → lookup k m ≡ none
      → lookup k (keep (λ b. p b.1) m) ≡ none
  unfolding lookup
  lookup-keep-none p k [] h = refl
  lookup-keep-none p k ((i, w) ∷ m) h = ground (arith, lookup-keep-none p k m)

  pub lookup-keep :
      (p : V → Bool) (k : K) (m : Map K V)
      → IsUnique m
      → lookup k (keep (λ b. p b.1) m) ≡ guarded p (lookup k m)
  unfolding lookup
  lookup-keep p k [] u = refl
  lookup-keep p k ((i, w) ∷ m) u =
      ground (arith, e.beq_iff i k, lookup-keep p k m u.1, lookup-keep-none p k m)

  pub keep-IsUnique : (p : V → Bool) (m : Map K V) → IsUnique m → IsUnique (keep (λ b. p b.1) m)
  keep-IsUnique p [] u = tt
  keep-IsUnique p ((i, w) ∷ m) u = ground (arith, keep-IsUnique p m u.1, lookup-keep-none p i m)

  pub length-insert : (k : K) (v : V) (m : Map K V) → length (insert k v m) ≤ suc (length m)
  unfolding insert
  length-insert k v [] = omega arith
  length-insert k v ((i, w) ∷ m) = ground (arith, length-insert k v m)

module _ {ℓ κ μ} {K : Type ℓ} {V : Type κ} (P : K → V → Type μ) where
  -- What holds of every entry.
  abbrev pub AllEntries : Map K V → Type μ
  AllEntries [] = Unit
  AllEntries ((k, v) ∷ m) = P k v × AllEntries m

  module _ ⦃e : Eq K⦄ where
    pub insert-AllEntries :
        (k : K) (v : V) (m : Map K V) → P k v → AllEntries m → AllEntries (insert k v m)
    unfolding insert
    insert-AllEntries k v [] h a = (h, tt)
    insert-AllEntries k v ((j, w) ∷ m) h a = elim (Bool-cases (e.beq j k)) [
      | inl b ↦ rw b (h, a.1)
      | inr b ↦ rw b (a.0, insert-AllEntries k v m h a.1)
    ]

    pub delete-AllEntries : (k : K) (m : Map K V) → AllEntries m → AllEntries (delete k m)
    unfolding delete
    delete-AllEntries k [] a = tt
    delete-AllEntries k ((j, w) ∷ m) a = elim (Bool-cases (e.beq j k)) [
      | inl b ↦ rw b (delete-AllEntries k m a.1)
      | inr b ↦ rw b (a.0, delete-AllEntries k m a.1)
    ]

    pub lookup-AllEntries :
        (k : K) (m : Map K V) (v : V) → AllEntries m → lookup k m ≡ some v → P k v
    unfolding lookup
    lookup-AllEntries k [] v a h = cc
    lookup-AllEntries k ((j, w) ∷ m) v a h = elim (Bool-cases (e.beq j k)) [
      | inl b ↦ subst₂ P ((e.beq_iff j k).0 b) (some-injective _ _ (rw b at h)) a.0
      | inr b ↦ lookup-AllEntries k m v a.1 (rw b at h)
    ]
