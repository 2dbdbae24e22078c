-- ===== src/Command/Outcome.antt =====
-- cmd/relay/main.go: what run returns, against the order of what happened.
use mathlib.Core.List.{append-nil}
use netns_mcast_relay.Base.{
  ◌≡◌, refl, sym, ap, subst, true, false, ◌&&◌, Bool-cases, inl, inr, Option, none, some, List, [],
  ◌∷◌, ◌++◌, Text, arith,
}
use netns_mcast_relay.Config.{Config}
use netns_mcast_relay.Command.{
  relay_loop, control_loop, initial_namespace, Failure, canceled, wrapped, is_canceled, cancel,
  is_done, waiting, exited, Process, Event, event_of, add_event, signalled, relay_failed,
  server_failed, start_failed, added, add_failed, start, after_relay, after_server, after_start,
  after_add, verdict, exit, Step, signal, unwatch, relay_ends, server_ends, no_server,
  server_starts, add, all_added, finish, finish_early, Reach, here, next,
}
use netns_mcast_relay.Command.Events.{
  or_first, first, first-append, failed_start, expected, At, Inv, or_first-none, is_done-or_first,
  cancel-or_first, ctx-append, keep, move,
}

after_relay-Inv :
    (e : Option Failure) (p : Process) (es : List Event)
    → Inv es p
    → Inv (es ++ event_of relay_failed e) (after_relay e p)
unfolding after_relay cancel
after_relay-Inv none p es i =
    keep p (after_relay none p) es [] refl i refl (or_first-none p.ctx) (λ _. refl) (λ h. h)
after_relay-Inv (some e) p es i =
    keep p (after_relay (some e) p) es (relay_failed e ∷ []) refl i refl
      (cancel-or_first (some (wrapped relay_loop e)) (wrapped relay_loop e) p.ctx
        (relay_failed e ∷ []) refl refl)
      (λ _. refl) (λ h. h)

after_server-Inv :
    (e : Option Failure) (p : Process) (es : List Event)
    → Inv es p
    → Inv (es ++ event_of server_failed e) (after_server e p)
unfolding after_server cancel
after_server-Inv none p es i =
    keep p (after_server none p) es [] refl i refl (or_first-none p.ctx) (λ h. h) (λ _. refl)
after_server-Inv (some e) p es i =
    keep p (after_server (some e) p) es (server_failed e ∷ []) refl i refl
      (cancel-or_first (some (wrapped control_loop e)) (wrapped control_loop e) p.ctx
        (server_failed e ∷ []) refl refl)
      (λ h. h) (λ _. refl)

is_done-cancel : (e : Option Failure) (ctx : Option Failure) → is_done (cancel e ctx) ≡ true
unfolding cancel
is_done-cancel e none = refl
is_done-cancel e (some c) = refl

after_start-Inv :
    (initial : List Text) (e : Option Failure) (p : Process) (es : List Event)
    → Inv es p
    → first failed_start es ≡ none
    → Inv (es ++ event_of start_failed e) (after_start initial e p)
unfolding after_start cancel
after_start-Inv initial none p es i n =
    move p (after_start initial none p) es [] i n refl (or_first-none p.ctx) (λ h. h)
after_start-Inv initial (some e) p es (c, a) n = (
  ctx-append p (after_start initial (some e) p) es (start_failed e ∷ []) c
      (cancel-or_first (some e) e p.ctx (start_failed e ∷ []) refl refl),
  (
    e,
    refl,
    rw (first-append failed_start es (start_failed e ∷ []), n) refl,
    is_done-cancel (some e) p.ctx,
  ),
)

is_done-ctx : (ctx fresh : Option Failure) → is_done ctx ≡ true → ctx ≡ or_first ctx fresh
is_done-ctx ctx fresh h = sym (is_done-or_first ctx fresh h)

after_add-Inv :
    (path : Text) (rest : List Text) (e : Option Failure) (p : Process) (es : List Event)
    → Inv es p
    → first failed_start es ≡ none
    → Inv (es ++ add_event path e) (after_add path rest e p)
unfolding after_add cancel
after_add-Inv path rest none p es i n =
    move p (after_add path rest none p) es (added path ∷ []) i n refl (or_first-none p.ctx) (λ h. h)
after_add-Inv path rest (some e) p es i n = elim (Bool-cases (is_canceled e && is_done p.ctx)) [
  | inl over ↦
      rw (over, after_add)
        (move p (record p { phase = waiting }) es (add_failed path e ∷ []) i n refl
          (is_done-ctx p.ctx _ (ground (arith, over))) (λ h. h))
  | inr on ↦
      rw (on, after_add)
        (move p
          (record p {
            ctx = cancel (some (wrapped (initial_namespace path) e)) p.ctx;
            phase = waiting;
          })
          es (add_failed path e ∷ []) i n refl
          (cancel-or_first (some (wrapped (initial_namespace path) e))
            (wrapped (initial_namespace path) e) p.ctx (add_failed path e ∷ []) refl refl)
          (λ h. h))
]

exit-Inv :
    (r : Option Failure) (p : Process) (es : List Event)
    → Inv es p
    → r ≡ expected es
    → p.relay_runs ≡ false
    → p.server_runs ≡ false
    → is_done p.ctx ≡ true
    → Inv (es ++ []) (exit r p)
unfolding exit
exit-Inv r p es (c, a) e nr ns o = (
  ctx-append p (exit r p) es [] c (cancel-done p.ctx o),
  (rw (append-nil es) e, nr, ns, is_done-cancel none p.ctx),
)
  where
    cancel-done : (ctx : Option Failure) → is_done ctx ≡ true → cancel none ctx ≡ or_first ctx none
    cancel-done none h = cc
    cancel-done (some c) h = refl

waiting-answer :
    (p : Process) (es : List Event) (cause : Failure)
    → Inv es p
    → p.phase ≡ waiting
    → p.ctx ≡ some cause
    → verdict cause ≡ expected es
unfolding verdict
waiting-answer p es cause (c, a) w d = rw (subst (λ x. At x p es) w a, sym c, d) refl

step-Inv :
    (cfg : Config) (p q : Process) (es fs : List Event)
    → Inv es p
    → Step cfg p fs q
    → Inv (es ++ fs) q
unfolding cancel
step-Inv cfg p q es fs i (signal h) =
    keep p q es fs refl i refl (cancel-or_first none canceled p.ctx (signalled ∷ []) refl refl)
      (λ h. h) (λ h. h)
step-Inv cfg p q es fs i (unwatch h k) =
    keep p q es fs refl i refl (or_first-none p.ctx) (λ h. h) (λ h. h)
step-Inv cfg p q es fs i (relay_ends e h) = after_relay-Inv e p es i
step-Inv cfg p q es fs i (server_ends e h) = after_server-Inv e p es i
step-Inv cfg p q es fs (c, a) (no_server h k) =
    move p q es [] (c, a) (subst (λ x. At x p es) h a) refl (or_first-none p.ctx) (λ h. h)
step-Inv cfg p q es fs (c, a) (server_starts e h k) =
    after_start-Inv cfg.initial_namespaces e p es (c, a) (subst (λ x. At x p es) h a)
step-Inv cfg p q es fs (c, a) (add path rest e h) =
    after_add-Inv path rest e p es (c, a) (subst (λ x. At x p es) h a)
step-Inv cfg p q es fs (c, a) (all_added h) =
    move p q es [] (c, a) (subst (λ x. At x p es) h a) refl (or_first-none p.ctx) (λ h. h)
step-Inv cfg p q es fs i (finish cause h d nr ns) =
    exit-Inv (verdict cause) p es i (waiting-answer p es cause i h d) nr ns (ap is_done d)
step-Inv cfg p q es fs (c, a) (finish_early e h nr ns) =
    let (e0, e1, f, o) = subst (λ x. At x p es) h a in
    exit-Inv (some e) p es (c, a) (rw (e1, f) refl) nr ns o

Reach-Inv :
    (cfg : Config) (p : Process) (es : List Event) (q : Process)
    → Inv [] p
    → Reach cfg p es q
    → Inv es q
Reach-Inv cfg p es q i here = i
Reach-Inv cfg p es q i (next before step) = step-Inv cfg _ q _ _ (Reach-Inv cfg p _ _ i before) step

-- When run returns, the relay and the control server have ended, and what it returns is what its events
-- say, in whatever order its goroutines went: the failed start of the control server if there was one,
-- or else nothing if a signal came before every failure, or else the first failure (nothing when that
-- wraps context.Canceled).
pub Reach-exited :
    (cfg : Config) (es : List Event) (p : Process) (r : Option Failure)
    → Reach cfg (start none none) es p
    → p.phase ≡ exited r
    → (r ≡ expected es) × (p.relay_runs ≡ false) × (p.server_runs ≡ false)
unfolding start
Reach-exited cfg es p r reach h =
    let (c, a) = Reach-Inv cfg (start none none) es p (refl, refl) reach in
    let (e, nr, ns, o) = subst (λ x. At x p es) h a in (e, nr, ns)
