-- ===== src/Relay/Concurrent/Shutdown.antt =====
-- internal/relay/relay.go: the steps that end a reconcile, and those that end Run.
use netns_mcast_relay.Relay.Concurrent.Sound.{Step-IsSane}
use netns_mcast_relay.Relay.Concurrent.{step}
use netns_mcast_relay.Base.{◌||◌, true, false}
use netns_mcast_relay.Base.{
  ℕ, ◌+◌, ◌≤◌, ◌≡◌, refl, ap, Bool, Bool-cases, inl, inr, Option-cases, none, some, List, [], ◌∷◌,
  Text, Bytes, text_eq, nat_eq, ◌==◌, Map, lookup, insert, delete, arith, eqb_iff,
  lookup-AllEntries,
}
use netns_mcast_relay.Net.{UdpAddr}
use netns_mcast_relay.Relay.{Platform}
use netns_mcast_relay.Relay.Namespace.{build_instance}
use netns_mcast_relay.Relay.Concurrent.{
  Pointers, Coordinator, selecting, removing, awaiting, adding, shutting_down, awaiting_last,
  coordinator_over, launch, State, set_runner, begin_teardown, Step, begin_removal, skip_removal,
  removals_done, skip_addition, addition_failed, addition, publish, begin_last, coordinator_ends,
  here,
}
use netns_mcast_relay.Relay.Concurrent.Heap.{Points}
use netns_mcast_relay.Relay.Concurrent.Changes.{IsSane, coordinator_at}
use netns_mcast_relay.Relay.Concurrent.Drain.{
  Goes, Goes-trans, Goes-step, awaiting-Goes, awaiting_last-Goes,
}

-- An address beyond every address of the heap.
abbrev beyond : {A : Type 0} → Map ℕ A → ℕ
beyond [] = 0
beyond ((id, a) ∷ heap) = id + beyond heap + 1

lookup-beyond : {A : Type 0} (heap : Map ℕ A) (id : ℕ) → beyond heap ≤ id → lookup id heap ≡ none
unfolding lookup
lookup-beyond [] id h = refl
lookup-beyond ((j, a) ∷ heap) id h = elim (Bool-cases (j == id)) [
  | inl b ↦ absurd (omega (arith, (eqb_iff j id).0 b, h))
  | inr b ↦ rw b (lookup-beyond heap id (omega (arith, h)))
]

pair-eta : {A B : Type 0} (p : A × B) (a : A) → p.0 ≡ a → p ≡ (a, p.1)
pair-eta p a e = ap (λ x. (x, p.1)) e

module _ {W H S : Type 0} (md5 : Bytes → Bytes) (os : Platform W H S) (groups : List UdpAddr) where
  -- From an arrival on: what can be done at `c` can be done where the relay got to `c`.
  pub onwards :
      {x y : Bool} (s : State md5 os groups) (c d : Coordinator)
      → (g : Goes md5 os groups x s c)
      → ((t : State md5 os groups)
          → t.coordinator ≡ c
          → IsSane md5 os groups t
          → Goes md5 os groups y t d)
      → Goes md5 os groups (x || y) s d
  onwards s c d g k = Goes-trans md5 os groups s c d g (k g.after g.arrived g.sane)

  pub coordinator_step :
      (s : State md5 os groups) (w : W) (c : Coordinator)
      → Step md5 os groups s (record s { world = w; coordinator = c })
      → IsSane md5 os groups s
      → Goes md5 os groups false s c
  coordinator_step s w c move i =
      Goes-step md5 os groups s (record s { world = w; coordinator = c }) c move refl refl refl refl
        i

  -- Where the relay is already.
  pub stays :
      (s : State md5 os groups) (c : Coordinator)
      → s.coordinator ≡ c
      → IsSane md5 os groups s
      → Goes md5 os groups false s c
  stays s c h i = record {
    after = s;
    reach = here;
    sane = i;
    same_context = refl;
    same_broadcaster = refl;
    same_plan = λ _. refl;
    arrived = h;
  }

  pub removals-Goes :
      (ds : Map Text Bool) (left : Pointers) (s : State md5 os groups)
      → s.coordinator ≡ removing ds left
      → IsSane md5 os groups s
      → (kept : Pointers) × Goes md5 os groups false s (removing [] kept)
  removals-Goes [] left s h i = (left, stays s (removing [] left) h i)
  removals-Goes ((p, b) ∷ ds) left s h i = elim (Option-cases (lookup p left)) [
    | inl gone ↦
        let g = coordinator_step s s.world (removing ds left) (skip_removal p b ds left h gone) i in
        let (kept, k) = removals-Goes ds left g.after g.arrived g.sane in
        (kept, Goes-trans md5 os groups s (removing ds left) (removing [] kept) g k)
    | inr (id, listed) ↦
        let (refs, unique) = coordinator_at md5 os groups s (removing ((p, b) ∷ ds) left) h i in
        let (r, found, named) = lookup-AllEntries (Points s.heap) p left id refs listed in
        let rest = delete p left in
        let c = awaiting id ds rest in
        let begun =
          Goes-step md5 os groups s (begin_teardown md5 os groups id r c s) c
            (begin_removal p b ds left id r h listed found) refl refl refl refl i in
        let g = onwards s c (removing ds rest) begun (λ t e j.
          awaiting-Goes md5 os groups t id ds rest e (coordinator_at md5 os groups t c e j).0 j) in
        let (kept, k) = removals-Goes ds rest g.after g.arrived g.sane in
        (kept, Goes-trans md5 os groups s (removing ds rest) (removing [] kept) g k)
  ]

  addition-Goes :
      (p : Text) (b : Bool) (ps : Map Text Bool) (left : Pointers) (s : State md5 os groups)
      → s.coordinator ≡ adding ((p, b) ∷ ps) left
      → IsSane md5 os groups s
      → (more : Pointers) × Goes md5 os groups false s (adding ps more)
  addition-Goes p b ps left s h i = elim (Option-cases (lookup p left)) [
    | inr (id, listed) ↦ (
      left,
      coordinator_step s s.world (adding ps left) (skip_addition p b ps left id h listed) i,
    )
    | inl new ↦ elim (Option-cases (build_instance os groups p s.world).0) [
      | inl failed ↦
          let w = (build_instance os groups p s.world).1 in
          (
            left,
            coordinator_step s w (adding ps left)
                (addition_failed p b ps left w h new (pair-eta _ none failed)) i,
          )
      | inr (inst, built) ↦
          let w = (build_instance os groups p s.world).1 in
          let id = beyond s.heap in
          let c = adding ps (insert p id left) in
          (
            insert p id left,
            Goes-step md5 os groups s
                (set_runner md5 os groups id (launch s.context_done inst)
                  (record s { world = w; coordinator = c }))
                c
                (addition p b ps left inst w id h new (pair-eta _ (some inst) built)
                  (lookup-beyond s.heap id (omega arith)))
                refl refl refl refl i,
          )
    ]
  ]

  pub additions-Goes :
      (ps : Map Text Bool) (left : Pointers) (s : State md5 os groups)
      → s.coordinator ≡ adding ps left
      → IsSane md5 os groups s
      → (next : Pointers) × Goes md5 os groups false s (adding [] next)
  additions-Goes [] left s h i = (left, stays s (adding [] left) h i)
  additions-Goes ((p, b) ∷ ps) left s h i =
      let (more, g) = addition-Goes p b ps left s h i in
      let (next, k) = additions-Goes ps more g.after g.arrived g.sane in
      (next, Goes-trans md5 os groups s (adding ps more) (adding [] next) g k)

  -- The state after the next map has been published.
  abbrev pub published : Pointers → State md5 os groups → State md5 os groups
  published next s = record s {
    snap = next;
    pending = record s.pending { pending_add = []; pending_del = [] };
    coordinator = selecting;
  }

  publish-Goes :
      (next : Pointers) (s : State md5 os groups)
      → s.coordinator ≡ adding [] next
      → IsSane md5 os groups s
      → Goes md5 os groups true s selecting
  publish-Goes next s h i = record {
    after = published next s;
    reach = step here (publish next h);
    sane = Step-IsSane md5 os groups s (published next s) (publish next h) i;
    same_context = refl;
    same_broadcaster = refl;
    same_plan = λ e. cc;
    arrived = refl;
  }

  pub publication-Goes :
      (s : State md5 os groups)
      → (next : Pointers) × Goes md5 os groups false s (adding [] next)
      → Goes md5 os groups true s selecting
  publication-Goes s (next, g) = onwards s (adding [] next) selecting g (publish-Goes next)

  -- A reconcile comes to its end.
  pub reconcile-Goes :
      (ds : Map Text Bool) (left : Pointers) (s : State md5 os groups)
      → s.coordinator ≡ removing ds left
      → IsSane md5 os groups s
      → (next : Pointers) × Goes md5 os groups false s (adding [] next)
  reconcile-Goes ds left s h i =
      let (kept, g) = removals-Goes ds left s h i in
      let t = g.after in
      let c = adding t.pending.pending_add kept in
      let k = coordinator_step t t.world c (removals_done kept g.arrived) g.sane in
      let (next, l) = additions-Goes t.pending.pending_add kept k.after k.arrived k.sane in
      (
        next,
        Goes-trans md5 os groups s (removing [] kept) (adding [] next) g
            (Goes-trans md5 os groups t c (adding [] next) k l),
      )

  pub teardowns-Goes :
      (left : Pointers) (s : State md5 os groups)
      → s.coordinator ≡ shutting_down left
      → IsSane md5 os groups s
      → Goes md5 os groups false s coordinator_over
  teardowns-Goes [] s h i = coordinator_step s s.world coordinator_over (coordinator_ends h) i
  teardowns-Goes ((p, id) ∷ left) s h i =
      let ((r, found, named), refs) =
        coordinator_at md5 os groups s (shutting_down ((p, id) ∷ left)) h i in
      let c = awaiting_last id left in
      let begun =
        Goes-step md5 os groups s (begin_teardown md5 os groups id r c s) c
          (begin_last p id left r h found) refl refl refl refl i in
      let g = onwards s c (shutting_down left) begun (λ t e j.
        awaiting_last-Goes md5 os groups t id left e (coordinator_at md5 os groups t c e j).0 j) in
      onwards s (shutting_down left) coordinator_over g (teardowns-Goes left)
