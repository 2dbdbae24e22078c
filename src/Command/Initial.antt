-- ===== src/Command/Initial.antt =====
-- cmd/relay/main.go: which initial namespaces run hands to the relay.
use mathlib.Core.List.{append-nil, append_assoc}
use netns_mcast_relay.Base.{
  ◌≡◌, refl, sym, ◌∙◌, subst, true, ◌&&◌, Bool-cases, inl, inr, Option, none, some, List, [], ◌∷◌,
  ◌++◌, Text, arith,
}
use netns_mcast_relay.Config.{Config}
use netns_mcast_relay.Command.{
  relay_loop, control_loop, initial_namespace, Failure, wrapped, is_canceled, cancel, is_done,
  Phase, starting_server, adding, waiting, giving_up, exited, Process, Event, event_of, add_event,
  signalled, relay_failed, server_failed, start_failed, added, add_failed, start, after_relay,
  after_server, after_start, after_add, exit, Step, signal, unwatch, relay_ends, server_ends,
  no_server, server_starts, add, all_added, finish, finish_early, Reach, here, next,
}

-- The namespaces that were added, in order.
abbrev pub added_by : Event → List Text
added_by signalled = []
added_by (relay_failed e) = []
added_by (server_failed e) = []
added_by (start_failed e) = []
added_by (added path) = path ∷ []
added_by (add_failed path e) = []

abbrev pub all_added_by : List Event → List Text
all_added_by [] = []
all_added_by (e ∷ es) = added_by e ++ all_added_by es

all_added_by-append :
    (es fs : List Event) → all_added_by (es ++ fs) ≡ all_added_by es ++ all_added_by fs
all_added_by-append [] fs = refl
all_added_by-append (e ∷ es) fs =
    rw (all_added_by-append es fs) (sym (append_assoc (added_by e) _ _))

-- What is left of the initial namespaces.
abbrev IsPrefix : List Text → List Text → Type 0
IsPrefix xs ys = (rest : List Text) × (xs ++ rest ≡ ys)

abbrev Added : List Text → Phase → Process → List Text → Type 0
Added initial starting_server p done = done ≡ []
Added initial (adding rest) p done = done ++ rest ≡ initial
Added initial waiting p done = IsPrefix done initial × (p.ctx ≡ none → done ≡ initial)
Added initial (giving_up e) p done = done ≡ []
Added initial (exited r) p done = IsPrefix done initial

Inv : List Text → List Event → Process → Type 0
Inv initial es p = Added initial p.phase p (all_added_by es)

in_phase :
    (initial : List Text) (es : List Event) (p : Process) (x : Phase)
    → p.phase ≡ x
    → Inv initial es p
    → Added initial x p (all_added_by es)
unfolding Inv
in_phase initial es p x h a = subst (λ y. Added initial y p (all_added_by es)) h a

cancel-not_none : (e : Option Failure) (ctx : Option Failure) → ¬ (cancel e ctx ≡ none)
unfolding cancel
cancel-not_none e none h = cc
cancel-not_none e (some c) h = cc

Added-keep :
    (initial : List Text) (phase : Phase) (p q : Process) (done : List Text)
    → (q.ctx ≡ none → p.ctx ≡ none)
    → Added initial phase p done
    → Added initial phase q done
Added-keep initial starting_server p q done h a = a
Added-keep initial (adding rest) p q done h a = a
Added-keep initial waiting p q done h (a, b) = (a, λ e. b (h e))
Added-keep initial (giving_up e) p q done h a = a
Added-keep initial (exited r) p q done h a = a

-- A step of another goroutine, in which nothing is added.
other_goroutine :
    (initial : List Text) (es fs : List Event) (p q : Process)
    → q.phase ≡ p.phase
    → all_added_by fs ≡ []
    → (q.ctx ≡ none → p.ctx ≡ none)
    → Inv initial es p
    → Inv initial (es ++ fs) q
unfolding Inv
other_goroutine initial es fs p q same nothing h a =
    rw (all_added_by-append es fs, nothing, append-nil (all_added_by es))
      (subst (λ x. Added initial x q (all_added_by es)) (sym same)
        (Added-keep initial p.phase p q (all_added_by es) h a))

after_relay-Inv :
    (initial : List Text) (e : Option Failure) (es : List Event) (p : Process)
    → Inv initial es p
    → Inv initial (es ++ event_of relay_failed e) (after_relay e p)
unfolding after_relay
after_relay-Inv initial none es p a =
    other_goroutine initial es [] p (after_relay none p) refl refl (λ h. h) a
after_relay-Inv initial (some e) es p a =
    other_goroutine initial es (relay_failed e ∷ []) p (after_relay (some e) p) refl refl
      (λ h. absurd (cancel-not_none (some (wrapped relay_loop e)) p.ctx h)) a

after_server-Inv :
    (initial : List Text) (e : Option Failure) (es : List Event) (p : Process)
    → Inv initial es p
    → Inv initial (es ++ event_of server_failed e) (after_server e p)
unfolding after_server
after_server-Inv initial none es p a =
    other_goroutine initial es [] p (after_server none p) refl refl (λ h. h) a
after_server-Inv initial (some e) es p a =
    other_goroutine initial es (server_failed e ∷ []) p (after_server (some e) p) refl refl
      (λ h. absurd (cancel-not_none (some (wrapped control_loop e)) p.ctx h)) a

-- A step of the main goroutine from the phase `x`, after which `done` has been added.
main_goroutine :
    (initial done : List Text) (es fs : List Event) (q : Process)
    → all_added_by es ++ all_added_by fs ≡ done
    → Added initial q.phase q done
    → Inv initial (es ++ fs) q
unfolding Inv
main_goroutine initial done es fs q e a = rw (all_added_by-append es fs, e) a

after_start-Inv :
    (initial : List Text) (e : Option Failure) (es : List Event) (p : Process)
    → all_added_by es ≡ []
    → Inv initial (es ++ event_of start_failed e) (after_start initial e p)
unfolding after_start
after_start-Inv initial none es p e =
    main_goroutine initial [] es [] (after_start initial none p) (rw e refl) refl
after_start-Inv initial (some x) es p e =
    main_goroutine initial [] es (start_failed x ∷ []) (after_start initial (some x) p) (rw e refl)
      refl

after_add-Inv :
    (initial : List Text) (path : Text) (rest : List Text) (e : Option Failure) (es : List Event)
    (p : Process)
    → all_added_by es ++ path ∷ rest ≡ initial
    → Inv initial (es ++ add_event path e) (after_add path rest e p)
unfolding after_add is_canceled
after_add-Inv initial path rest none es p a =
    main_goroutine initial (all_added_by es ++ path ∷ []) es (added path ∷ [])
      (after_add path rest none p) refl (append_assoc (all_added_by es) (path ∷ []) rest ∙ a)
after_add-Inv initial path rest (some e) es p a =
    elim (Bool-cases (is_canceled e && is_done p.ctx)) [
      | inl over ↦
          rw (over, after_add)
            (main_goroutine initial (all_added_by es) es (add_failed path e ∷ [])
              (record p { phase = waiting }) (append-nil (all_added_by es))
              ((path ∷ rest, a), λ h. absurd (not_done p.ctx h (ground (arith, over)))))
      | inr on ↦
          rw (on, after_add)
            (main_goroutine initial (all_added_by es) es (add_failed path e ∷ [])
              (record p {
                ctx = cancel (some (wrapped (initial_namespace path) e)) p.ctx;
                phase = waiting;
              })
              (append-nil (all_added_by es))
              (
                (path ∷ rest, a),
                λ h. absurd (cancel-not_none (some (wrapped (initial_namespace path) e)) p.ctx h),
              ))
    ]
  where
    not_done : (ctx : Option Failure) → ctx ≡ none → ¬ (is_done ctx ≡ true)
    not_done none h k = cc
    not_done (some c) h k = cc

-- Nothing is added by the events of this step of the main goroutine.
quiet :
    (initial : List Text) (es : List Event) (q : Process)
    → Added initial q.phase q (all_added_by es)
    → Inv initial (es ++ []) q
quiet initial es q a = main_goroutine initial (all_added_by es) es [] q (append-nil _) a

finish_early-prefix : (initial done : List Text) → done ≡ [] → IsPrefix done initial
finish_early-prefix initial done e = (initial, rw e refl)

step-Inv :
    (cfg : Config) (p q : Process) (es fs : List Event)
    → Inv cfg.initial_namespaces es p
    → Step cfg p fs q
    → Inv cfg.initial_namespaces (es ++ fs) q
unfolding exit
step-Inv cfg p q es fs a (signal h) =
    other_goroutine cfg.initial_namespaces es (signalled ∷ []) p q refl refl
      (λ h. absurd (cancel-not_none none p.ctx h)) a
step-Inv cfg p q es fs a (unwatch h k) =
    other_goroutine cfg.initial_namespaces es [] p q refl refl (λ h. h) a
step-Inv cfg p q es fs a (relay_ends e h) = after_relay-Inv cfg.initial_namespaces e es p a
step-Inv cfg p q es fs a (server_ends e h) = after_server-Inv cfg.initial_namespaces e es p a
step-Inv cfg p q es fs a (no_server h k) =
    quiet cfg.initial_namespaces es q
      (rw (in_phase cfg.initial_namespaces es p starting_server h a) refl)
step-Inv cfg p q es fs a (server_starts e h k) =
    after_start-Inv cfg.initial_namespaces e es p
      (in_phase cfg.initial_namespaces es p starting_server h a)
step-Inv cfg p q es fs a (add path rest e h) =
    after_add-Inv cfg.initial_namespaces path rest e es p
      (in_phase cfg.initial_namespaces es p (adding (path ∷ rest)) h a)
step-Inv cfg p q es fs a (all_added h) =
    let same =
      sym (append-nil (all_added_by es)) ∙ in_phase cfg.initial_namespaces es p (adding []) h a in
    quiet cfg.initial_namespaces es q (([], append-nil _ ∙ same), λ _. same)
step-Inv cfg p q es fs a (finish cause h d nr ns) =
    quiet cfg.initial_namespaces es q (in_phase cfg.initial_namespaces es p waiting h a).0
step-Inv cfg p q es fs a (finish_early e h nr ns) = quiet cfg.initial_namespaces es q (
    finish_early-prefix cfg.initial_namespaces (all_added_by es)
      (in_phase cfg.initial_namespaces es p (giving_up e) h a))

Reach-Inv :
    (cfg : Config) (p : Process) (es : List Event) (q : Process)
    → Inv cfg.initial_namespaces [] p
    → Reach cfg p es q
    → Inv cfg.initial_namespaces es q
Reach-Inv cfg p es q a here = a
Reach-Inv cfg p es q a (next before step) = step-Inv cfg _ q _ _ (Reach-Inv cfg p _ _ a before) step

-- While run waits and its context is not cancelled, every initial namespace of the configuration has
-- been added, once and in order, whether there is a control server or not.
pub Reach-waiting :
    (cfg : Config) (es : List Event) (p : Process)
    → Reach cfg (start none none) es p
    → p.phase ≡ waiting
    → p.ctx ≡ none
    → all_added_by es ≡ cfg.initial_namespaces
unfolding start Inv
Reach-waiting cfg es p reach w n =
    (in_phase cfg.initial_namespaces es p waiting w
        (Reach-Inv cfg (start none none) es p refl reach)).1
      n
