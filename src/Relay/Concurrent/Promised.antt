-- ===== src/Relay/Concurrent/Promised.antt =====
-- internal/relay/relay.go: from a command that the coordinator has taken on to the end of its reconcile.
use netns_mcast_relay.Base.{◌⊎◌}
use netns_mcast_relay.Relay.Concurrent.Served.{Reach-served}
use netns_mcast_relay.Relay.Concurrent.Running.{Runs}
use mathlib.Core.List.{Memᴰ}
use netns_mcast_relay.Relay.Concurrent.{Runner}
use netns_mcast_relay.Relay.Coordinator.{ns_cmd_add}
use netns_mcast_relay.Base.{Option, Option-cases, inl, inr, false, nat_eq}
use netns_mcast_relay.Base.{
  ℕ, ◌+◌, ◌≡◌, refl, sym, ap, ◌∙◌, subst, some, none, List, [], Text, Bytes, text_eq, lookup, arith,
}
use netns_mcast_relay.Net.{UdpAddr}
use netns_mcast_relay.Relay.{Platform}
use netns_mcast_relay.Relay.Coordinator.Intents.{last_intent}
use netns_mcast_relay.Relay.Concurrent.{
  selecting, removing, State, start, tick, timer, publish, Reach, here, step,
}
use netns_mcast_relay.Relay.Concurrent.Sound.{Reach-start-IsSane}
use netns_mcast_relay.Relay.Concurrent.Drain.{Reach-trans, plan}
use netns_mcast_relay.Relay.Concurrent.Shutdown.{reconcile-Goes, published}
use netns_mcast_relay.Relay.Concurrent.History.{
  History, asked, failed_from, failed, joined, Holds, Reach-Holds,
}
use netns_mcast_relay.Relay.Concurrent.Answered.{Answered, published-Answered, Reach-Inv}

module _ {W H S : Type 0} (md5 : Bytes → Bytes) (os : Platform W H S) (groups : List UdpAddr) where
  plan-Holds :
      (s t : State md5 os groups) (cs : History)
      → plan md5 os groups t ≡ plan md5 os groups s
      → Holds s.pending cs
      → Holds t.pending cs
  plan-Holds s t cs e h = record {
    adds = ap (λ x. x.1) e ∙ h.adds;
    dels = ap (λ x. x.2) e ∙ h.dels;
  }

  -- The timer fires.
  abbrev fired : ℕ → State md5 os groups → State md5 os groups
  fired now s = record s {
    clock = now;
    pending = record s.pending { timer = none };
    coordinator = removing s.pending.pending_del s.snap;
  }

  fire :
      (s : State md5 os groups) (due : ℕ)
      → s.coordinator ≡ selecting
      → s.pending.timer ≡ some due
      → Reach md5 os groups s (fired (s.clock + due) s)
  fire s due h d =
      step {t = record s { clock = s.clock + due }} (step here (tick (s.clock + due) (omega arith)))
        (timer due h d (omega arith))

  -- From every reachable state in which the coordinator waits with its timer set, the relay can go on,
  -- through the reconcile and the teardowns in it, to a state in which the coordinator waits again, the
  -- context is as it was, and the snapshot gives every path what the last of the commands that were
  -- taken asked for: after a removal no instance, after an addition the instance that the path had, or
  -- else one, unless this run has tried to build the namespace and failed, and without a command what
  -- it had.
  pub Reach-promised :
      (w : W) (now due : ℕ) (s : State md5 os groups)
      (reach : Reach md5 os groups (start md5 os groups w now) s)
      → s.coordinator ≡ selecting
      → s.pending.timer ≡ some due
      → (t : State md5 os groups) × (more : Reach md5 os groups s t) × (t.coordinator ≡ selecting)
        × (t.context_done ≡ s.context_done)
        × ((p : Text)
            → Answered
                (failed md5 os groups more)
                p
                (last_intent p (asked md5 os groups reach))
                (lookup p s.snap)
                (lookup p t.snap))
  unfolding failed_from fire
  Reach-promised w now due s reach h d =
      let u = fired (s.clock + due) s in
      let first = fire s due h d in
      let (next, g) =
        reconcile-Goes md5 os groups s.pending.pending_del s.snap u refl
          (Reach-start-IsSane md5 os groups w now u (Reach-trans md5 os groups reach first)) in
      let v = g.after in
      let cs = asked md5 os groups reach in
      let same = g.same_plan refl in
      let (run, same_failed) = joined md5 os groups [] first g.reach in
      (
        published md5 os groups next v,
        step run (publish next g.arrived),
        refl,
        g.same_context,
        λ p.
            subst (λ fs. Answered fs p (last_intent p cs) (lookup p s.snap) (lookup p next))
              (sym same_failed)
              (subst
                (λ m.
                  Answered (failed md5 os groups g.reach) p (last_intent p cs) (lookup p m)
                    (lookup p next))
                (ap (λ x. x.0) same)
                (published-Answered md5 os groups (failed md5 os groups g.reach) v cs next p
                  g.arrived (Reach-Inv md5 os groups [] u v g.reach (λ q. refl))
                  (plan-Holds s v cs same (Reach-Holds md5 os groups w now s reach)))),
      )

  -- An instance of the namespace is listed in the state, is live, and its goroutines run.
  abbrev pub IsServed : State md5 os groups → Text → Type 0
  IsServed t p =
      (r : Runner H S) × (id : ℕ) × (lookup p t.snap ≡ some id)
      × (lookup id t.heap ≡ some r)
      × (r.inst.path ≡ p)
      × (r.inst.cancelled ≡ false)
      × Runs r

  -- What an addition that was answered leaves, where each listed namespace is served.
  added-IsServed :
      (fs : List Text) (t : State md5 os groups) (p : Text) (old : Option ℕ)
      → Answered fs p (some ns_cmd_add) old (lookup p t.snap)
      → ((id : ℕ) → lookup p t.snap ≡ some id → IsServed t p)
      → Memᴰ p fs ⊎ IsServed t p
  added-IsServed fs t p (some id) answered serves = inr (serves id answered)
  added-IsServed fs t p none answered serves = elim (Option-cases (lookup p t.snap)) [
    | inl gone ↦ inl (answered gone)
    | inr (id, there) ↦ inr (serves id there)
  ]

  -- While the context is not done, a namespace whose last command is an addition comes to be served:
  -- the relay can go on, through its reconcile, until its coordinator waits again, and then an instance
  -- of the namespace is listed, is live and has all its goroutines running, unless this run has tried
  -- to build the namespace and failed.
  pub Reach-added :
      (w : W) (now due : ℕ) (s : State md5 os groups) (p : Text)
      (reach : Reach md5 os groups (start md5 os groups w now) s)
      → s.coordinator ≡ selecting
      → s.context_done ≡ false
      → s.pending.timer ≡ some due
      → last_intent p (asked md5 os groups reach) ≡ some ns_cmd_add
      → (t : State md5 os groups) × (more : Reach md5 os groups s t) × (t.coordinator ≡ selecting)
        × (Memᴰ p (failed md5 os groups more) ⊎ IsServed t p)
  Reach-added w now due s p reach h live d wanted =
      let (t, more, waits, same, answers) = Reach-promised w now due s reach h d in
      let fs = failed md5 os groups more in
      let answered : Answered fs p (some ns_cmd_add) (lookup p s.snap) (lookup p t.snap) =
        subst (λ x. Answered fs p x (lookup p s.snap) (lookup p t.snap)) wanted (answers p) in
      (
        t,
        more,
        waits,
        added-IsServed fs t p (lookup p s.snap) answered (λ id there.
            let (r, found, named, alive, runs) =
              Reach-served md5 os groups w now t p id (Reach-trans md5 os groups reach more) waits
                (same ∙ live) there in
            (r, id, there, found, named, alive, runs)),
      )
