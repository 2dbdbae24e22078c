-- ===== src/Relay/Coordinator/Reconcile.antt =====
-- internal/relay/relay.go: the namespaces that are active after a reconcile.
use netns_mcast_relay.Base.{
  ℕ, ◌≡◌, refl, ◌∙◌, ap, Bool, true, false, ◌||◌, Option, none, some, List, [], ◌∷◌, Text, text_eq,
  text_beq, text_beq_iff, Map, lookup, delete, lookup-insert, lookup-delete, arith, if◌then◌else◌,
  Option-cases, Bool-cases, inl, inr, subst,
}
use netns_mcast_relay.Net.{UdpAddr}
use netns_mcast_relay.Relay.{Platform, Instance}
use netns_mcast_relay.Relay.Namespace.{build_instance, teardown}
use netns_mcast_relay.Relay.Coordinator.{
  NsCmdType, ns_cmd_add, ns_cmd_remove, NsCmd, Pending, idle, Snapshot, apply_removals, add_built,
  add_one, apply_additions, reconcile, on_timer,
}
use netns_mcast_relay.Relay.Coordinator.Intents.{
  on_commands, last_intent, IsPending, on_commands-IsPending,
}

abbrev pub is_some {ℓ} : {A : Type ℓ} → Option A → Bool
is_some none = false
is_some (some _) = true

module _ {W H S : Type 0} (os : Platform W H S) where
  pub lookup-apply_removals :
      (ds : Map Text Bool) (p : Text) (next : Snapshot os) (w : W)
      → lookup p (apply_removals os ds next w).0
        ≡ (if is_some (lookup p ds) then none else lookup p next)
  unfolding apply_removals lookup
  lookup-apply_removals [] p next w = refl
  lookup-apply_removals ((q, b) ∷ ds) p next w = elim (Option-cases (lookup q next)) [
    | inl gone ↦ ground (arith, gone, text_beq_iff q p, lookup-apply_removals ds p next w)
    | inr (inst, found) ↦ ground (
      arith,
      found,
      text_beq_iff q p,
      lookup-delete q p next,
      lookup-apply_removals ds p (delete q next) (teardown os inst w),
    )
  ]

  -- What the additions make of one path: an instance stays, and a wanted one is built.
  abbrev pub Added :
      List UdpAddr → Text → Bool → Option (Instance H S) → Option (Instance H S) → Type 0
  Added groups p wanted (some i) new = new ≡ some i
  Added groups p false none new = new ≡ none
  Added groups p true none new = (w : W) × (new ≡ (build_instance os groups p w).0)

  Added-trans :
      (groups : List UdpAddr) (p : Text) (a b : Bool) (old mid new : Option (Instance H S))
      → Added groups p a old mid
      → Added groups p b mid new
      → Added groups p (a || b) old new
  Added-trans groups p a b (some i) mid new h k = subst (λ m. Added groups p b m new) h k
  Added-trans groups p false b none mid new h k = subst (λ m. Added groups p b m new) h k
  Added-trans groups p true b none (some i) new (w, e) k = (w, k ∙ e)
  Added-trans groups p true false none none new (w, e) k = (w, k ∙ e)
  Added-trans groups p true true none none new h k = k

  -- A path that an addition does not name keeps what it had.
  Added-refl :
      (groups : List UdpAddr) (p : Text) (o : Option (Instance H S)) → Added groups p false o o
  Added-refl groups p none = refl
  Added-refl groups p (some i) = refl

  add_built-Added :
      (groups : List UdpAddr) (q p : Text) (next : Snapshot os) (w : W)
      (r : Option (Instance H S) × W)
      → r ≡ build_instance os groups q w
      → lookup q next ≡ none
      → Added groups p (text_beq q p) (lookup p next) (lookup p (add_built os q next r).0)
  add_built-Added groups q p next w (none, w') e gone = elim (Bool-cases (text_beq q p)) [
    | inl same ↦
        let eq : q ≡ p = (text_beq_iff q p).0 same in
        rw (same, subst (λ x. lookup x next ≡ none) eq gone)
          (w, subst (λ x. none ≡ (build_instance os groups x w).0) eq (ap (λ r. r.0) e))
    | inr other ↦ rw other (Added-refl groups p (lookup p next))
  ]
  add_built-Added groups q p next w (some i, w') e gone = elim (Bool-cases (text_beq q p)) [
    | inl same ↦
        let eq : q ≡ p = (text_beq_iff q p).0 same in
        rw (lookup-insert q p i next, same, subst (λ x. lookup x next ≡ none) eq gone)
          (w, subst (λ x. some i ≡ (build_instance os groups x w).0) eq (ap (λ r. r.0) e))
    | inr other ↦ rw (lookup-insert q p i next, other) (Added-refl groups p (lookup p next))
  ]

  add_one-Added :
      (groups : List UdpAddr) (q p : Text) (next : Snapshot os) (w : W)
      → Added groups p (text_beq q p) (lookup p next) (lookup p (add_one os groups q next w).0)
  unfolding add_one
  add_one-Added groups q p next w = elim (Option-cases (lookup q next)) [
    | inl gone ↦ rw (gone, add_one) (add_built-Added groups q p next w _ refl gone)
    | inr (inst, found) ↦ rw (found, add_one) (stays inst found)
  ]
    where
      stays :
          (inst : Instance H S)
          → lookup q next ≡ some inst
          → Added groups p (text_beq q p) (lookup p next) (lookup p next)
      stays inst found = elim (Bool-cases (text_beq q p)) [
        | inl same ↦
            rw (same, subst (λ x. lookup x next ≡ some inst) ((text_beq_iff q p).0 same) found) refl
        | inr other ↦ rw other (Added-refl groups p (lookup p next))
      ]

  is_some-lookup_cons :
      (q p : Text) (b : Bool) (ds : Map Text Bool)
      → is_some (lookup p ((q, b) ∷ ds)) ≡ (text_beq q p || is_some (lookup p ds))
  unfolding lookup
  is_some-lookup_cons q p b ds = ground arith

  pub apply_additions-Added :
      (groups : List UdpAddr) (ds : Map Text Bool) (p : Text) (next : Snapshot os) (w : W)
      → Added groups p
          (is_some (lookup p ds))
          (lookup p next)
          (lookup p (apply_additions os groups ds next w).0)
  unfolding apply_additions
  apply_additions-Added groups [] p next w = unfold lookup in Added-refl groups p (lookup p next)
  apply_additions-Added groups ((q, b) ∷ ds) p next w = rw (is_some-lookup_cons q p b ds) (
      Added-trans groups p (text_beq q p) (is_some (lookup p ds)) (lookup p next) _ _
        (add_one-Added groups q p next w)
        (apply_additions-Added groups ds p (add_one os groups q next w).0
          (add_one os groups q next w).1))

  -- What a burst makes of one path, by its last intent.
  abbrev pub Settled :
      List UdpAddr
      → Text
      → Option NsCmdType
      → Option (Instance H S)
      → Option (Instance H S)
      → Type 0
  Settled groups p none old new = new ≡ old
  Settled groups p (some ns_cmd_remove) old new = new ≡ none
  Settled groups p (some ns_cmd_add) old new = Added groups p true old new

  Added-false :
      (groups : List UdpAddr) (p : Text) (mid new : Option (Instance H S))
      → Added groups p false mid new
      → new ≡ mid
  Added-false groups p none new k = k
  Added-false groups p (some i) new k = k

  settle :
      (groups : List UdpAddr) (p : Text) (last : Option NsCmdType) (add del : Option Bool)
      (old mid new : Option (Instance H S))
      → IsPending last none none add del
      → mid ≡ (if is_some del then none else old)
      → Added groups p (is_some add) mid new
      → Settled groups p last old new
  settle groups p none none none old mid new h m k = Added-false groups p mid new k ∙ m
  settle groups p (some ns_cmd_add) (some b) none old mid new h m k =
      subst (λ o. Added groups p true o new) m k
  settle groups p (some ns_cmd_remove) none (some b) old mid new h m k =
      Added-false groups p mid new k ∙ m
  settle groups p none _ _ old mid new h m k = ground arith
  settle groups p (some ns_cmd_add) _ _ old mid new h m k = ground arith
  settle groups p (some ns_cmd_remove) _ _ old mid new h m k = ground arith

  pub reconcile-Settled :
      (groups : List UdpAddr) (s : Pending) (cur : Snapshot os) (w : W) (p : Text)
      (last : Option NsCmdType)
      → IsPending last none none (lookup p s.pending_add) (lookup p s.pending_del)
      → Settled groups p last (lookup p cur) (lookup p (reconcile os groups s cur w).1)
  unfolding reconcile
  reconcile-Settled groups s cur w p last h =
      let kept = apply_removals os s.pending_del cur w in
      settle groups p last (lookup p s.pending_add) (lookup p s.pending_del) (lookup p cur)
        (lookup p kept.0) _ h (lookup-apply_removals s.pending_del p cur w)
        (apply_additions-Added groups s.pending_add p kept.0 kept.1)

  -- A burst of commands and the reconcile that follows it give each path what its last command
  -- asked for: after a removal it is not active, after an addition the instance that it had stays, or
  -- else it has what one attempt at building it gave, and without a command it keeps what it had.
  pub on_timer-Settled :
      (groups : List UdpAddr) (cs : List (ℕ × NsCmd)) (cur : Snapshot os) (w : W) (p : Text)
      → Settled groups p
          (last_intent p cs)
          (lookup p cur)
          (lookup p (on_timer os groups (on_commands cs idle) cur w).1)
  unfolding on_timer idle
  on_timer-Settled groups cs cur w p =
      reconcile-Settled groups (record (on_commands cs idle) { timer = none }) cur w p
        (last_intent p cs) (unfold lookup in on_commands-IsPending cs idle p)
