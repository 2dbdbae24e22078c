-- ===== src/Relay/Concurrent/Answered.antt =====
-- internal/relay/relay.go: the reconcile of a run, in several steps, against the commands that it
-- answers.
use mathlib.Core.List.{Memᴰ}
use netns_mcast_relay.Relay.Concurrent.{
  command, timer, skip_removal, begin_removal, end_removal, removals_done, skip_addition,
  addition_failed, addition, publish, shut_down, begin_last, end_last, coordinator_ends,
}
use netns_mcast_relay.Base.{
  ℕ, ◌≡◌, refl, sym, Bool, false, Option, none, some, List, [], ◌∷◌, Text, Bytes, text_eq, lookup,
  subst,
}
use netns_mcast_relay.Net.{UdpAddr}
use netns_mcast_relay.Relay.{Platform}
use netns_mcast_relay.Relay.Coordinator.{NsCmdType, ns_cmd_add, ns_cmd_remove, Pending, idle}
use netns_mcast_relay.Relay.Coordinator.Intents.{
  on_commands, last_intent, IsPending, on_commands-IsPending,
}
use netns_mcast_relay.Relay.Coordinator.Reconcile.{is_some}
use netns_mcast_relay.Relay.Concurrent.{
  Pointers, Coordinator, selecting, removing, awaiting, adding, shutting_down, awaiting_last,
  coordinator_over, State, start, Step, Reach, here, step,
}
use netns_mcast_relay.Relay.Concurrent.History.{
  asked, failed_after, failed_from, failed, Holds, Reach-Holds,
}
use netns_mcast_relay.Relay.Concurrent.History.{History}
use netns_mcast_relay.Relay.Concurrent.Turns.{
  kept_of, Removes, Removes-skip, Removes-delete, Progress, Adds, Adds-start, Adds-there,
  Adds-failed, Adds-built, Adds-mono,
}

-- `fs` are the paths that the reconcile has tried to build in vain.
module _ (fs : List Text) where
  abbrev IsIn : Text → Type 0
  IsIn p = Memᴰ p fs

  -- How far the reconcile is.
  abbrev pub Underway : Pending → Pointers → Coordinator → Type 0
  Underway pending snap (removing ds next) = Removes pending.pending_del snap ds next
  Underway pending snap (awaiting id ds next) = Removes pending.pending_del snap ds next
  Underway pending snap (adding ps next) = Adds IsIn pending snap ps next
  Underway pending snap selecting = Unit
  Underway pending snap (shutting_down left) = Unit
  Underway pending snap (awaiting_last id left) = Unit
  Underway pending snap coordinator_over = Unit

  -- What the last command for a path makes of its pointer.
  abbrev pub Answered : Text → Option NsCmdType → Option ℕ → Option ℕ → Type 0
  Answered p none old new = new ≡ old
  Answered p (some ns_cmd_remove) old new = new ≡ none
  Answered p (some ns_cmd_add) (some id) new = new ≡ some id
  Answered p (some ns_cmd_add) none new = new ≡ none → Memᴰ p fs

  Progress-Answered :
      (p : Text) (last : Option NsCmdType) (add del : Option Bool) (old new : Option ℕ)
      → IsPending last none none add del
      → Progress IsIn p false (is_some add) (kept_of del old) new
      → Answered p last old new
  Progress-Answered p none add del (some id) new (e, e') h = rw (e, e') at h
  Progress-Answered p none add del none new (e, e') h = (rw (e, e') at h).1
  Progress-Answered p (some ns_cmd_add) add del (some id) new (e, e') h = rw (e, e') at h
  Progress-Answered p (some ns_cmd_add) add del none new (e, e') h = rw (e, e') at h
  Progress-Answered p (some ns_cmd_remove) add del old new (e, e') h = (rw (e, e') at h).1

module _ {W H S : Type 0} (md5 : Bytes → Bytes) (os : Platform W H S) (groups : List UdpAddr) where
  abbrev pub Inv : List Text → State md5 os groups → Type 0
  Inv fs s = Underway fs s.pending s.snap s.coordinator

  held_at :
      (fs : List Text) (s : State md5 os groups) (c : Coordinator)
      → s.coordinator ≡ c
      → Inv fs s
      → Underway fs s.pending s.snap c
  held_at fs s c h i = subst (Underway fs s.pending s.snap) h i

  Step-Inv :
      (fs : List Text) (s t : State md5 os groups) (move : Step md5 os groups s t)
      → Inv fs s
      → Inv (failed_after md5 os groups move fs) t
  Step-Inv fs s t (command cmd h) i = rw h tt
  Step-Inv fs s t (timer due h d le) i = λ p. refl
  Step-Inv fs s t (skip_removal p b ds next h e) i =
      Removes-skip s.pending.pending_del s.snap p b ds next e (held_at fs s _ h i)
  Step-Inv fs s t (begin_removal p b ds next id r h e found) i =
      Removes-delete s.pending.pending_del s.snap p b ds next (held_at fs s _ h i)
  Step-Inv fs s t (end_removal id ds next r h found nr nw) i = held_at fs s _ h i
  Step-Inv fs s t (removals_done next h) i =
      Adds-start (IsIn fs) s.pending s.snap next (held_at fs s _ h i)
  Step-Inv fs s t (skip_addition p b ps next id h e) i =
      Adds-there (IsIn fs) s.pending s.snap p b ps next id e (held_at fs s _ h i)
  Step-Inv fs s t (addition_failed p b ps next w h e f) i =
      Adds-failed (IsIn (p ∷ fs)) s.pending s.snap p b ps next (Memᴰ.head refl) (
        Adds-mono (IsIn fs) (IsIn (p ∷ fs)) (λ q m. Memᴰ.tail m) s.pending s.snap ((p, b) ∷ ps) next
          (held_at fs s _ h i))
  Step-Inv fs s t (addition p b ps next inst w id h e built free) i =
      Adds-built (IsIn fs) s.pending s.snap p b ps next id e (held_at fs s _ h i)
  Step-Inv fs s t (publish next h) i = tt
  Step-Inv fs s t (shut_down h d) i = tt
  Step-Inv fs s t (begin_last p id rest r h found) i = tt
  Step-Inv fs s t (end_last id rest r h found nr nw) i = tt
  Step-Inv fs s t (coordinator_ends h) i = tt
  Step-Inv fs s t _ i = i

  pub Reach-Inv :
      (fs : List Text) (s t : State md5 os groups) (reach : Reach md5 os groups s t)
      → Inv fs s
      → Inv (failed_from md5 os groups fs reach) t
  unfolding failed_from
  Reach-Inv fs s t here i = i
  Reach-Inv fs s t (step {t = u} before move) i =
      Step-Inv (failed_from md5 os groups fs before) u t move (Reach-Inv fs s u before i)

  -- The map that is about to be published, from what the coordinator's variables hold.
  pub published-Answered :
      (fs : List Text) (s : State md5 os groups) (cs : History) (next : Pointers) (p : Text)
      → s.coordinator ≡ adding [] next
      → Inv fs s
      → Holds s.pending cs
      → Answered fs p (last_intent p cs) (lookup p s.snap) (lookup p next)
  published-Answered fs s cs next p h i held =
      Progress-Answered fs p (last_intent p cs) (lookup p s.pending.pending_add)
        (lookup p s.pending.pending_del) (lookup p s.snap) (lookup p next)
        (subst
          (λ m.
            IsPending (last_intent p cs) none none (lookup p m) (lookup p s.pending.pending_del))
          (sym held.adds)
          (subst
            (λ m.
              IsPending (last_intent p cs) none none (lookup p (on_commands cs idle).pending_add)
                (lookup p m))
            (sym held.dels) (unfold lookup idle in on_commands-IsPending cs idle p)))
        (unfold lookup in held_at fs s (adding [] next) h i p)

  -- Under every interleaving, the map that a reconcile is about to publish gives each path what the
  -- last of the commands since the reconcile before asked for: after a removal no instance, after an
  -- addition the instance that the path had, or else one, unless this reconcile has tried to build the
  -- namespace and failed, and without a command what it had.
  pub Reach-Answered :
      (w : W) (now : ℕ) (s : State md5 os groups) (next : Pointers) (p : Text)
      (reach : Reach md5 os groups (start md5 os groups w now) s)
      → s.coordinator ≡ adding [] next
      → Answered
          (failed md5 os groups reach)
          p
          (last_intent p (asked md5 os groups reach))
          (lookup p s.snap)
          (lookup p next)
  unfolding start
  Reach-Answered w now s next p reach h =
      published-Answered (failed md5 os groups reach) s (asked md5 os groups reach) next p h
        (Reach-Inv [] (start md5 os groups w now) s reach tt)
        (Reach-Holds md5 os groups w now s reach)
