-- ===== src/Command/Events.antt =====
-- cmd/relay/main.go: what the events of run say about its answer, and what ties them to its state.
use netns_mcast_relay.Base.{
  ◌≡◌, refl, sym, ap, ◌∙◌, subst, true, false, Option, none, some, List, [], ◌∷◌, ◌++◌,
  if◌then◌else◌,
}
use netns_mcast_relay.Command.{
  relay_loop, control_start, control_loop, initial_namespace, Failure, canceled, wrapped,
  is_canceled, cancel, is_done, Phase, starting_server, adding, waiting, giving_up, exited, Process,
  Event, signalled, relay_failed, server_failed, start_failed, added, add_failed,
}

-- The first of two options that is there, and the first that a list gives.
abbrev pub or_first : {A : Type 0} → Option A → Option A → Option A
or_first none b = b
or_first (some a) b = some a

abbrev pub first : {A B : Type 0} → (A → Option B) → List A → Option B
first f [] = none
first f (a ∷ rest) = or_first (f a) (first f rest)

pub first-append :
    {A B : Type 0} (f : A → Option B) (xs ys : List A)
    → first f (xs ++ ys) ≡ or_first (first f xs) (first f ys)
first-append f [] ys = refl
first-append f (a ∷ rest) ys = rw (first-append f rest ys) (or_first-assoc (f a) _ _)
  where
    or_first-assoc :
        {B : Type 0} (a b c : Option B) → or_first a (or_first b c) ≡ or_first (or_first a b) c
    or_first-assoc none b c = refl
    or_first-assoc (some a) b c = refl

-- The cause that an event gives to cancel, and the failed start of the control server.
abbrev pub cause_of : Event → Option Failure
cause_of signalled = some canceled
cause_of (relay_failed e) = some (wrapped relay_loop e)
cause_of (server_failed e) = some (wrapped control_loop e)
cause_of (start_failed e) = some e
cause_of (added path) = none
cause_of (add_failed path e) = some (wrapped (initial_namespace path) e)

abbrev pub failed_start : Event → Option Failure
failed_start signalled = none
failed_start (relay_failed e) = none
failed_start (server_failed e) = none
failed_start (start_failed e) = some e
failed_start (added path) = none
failed_start (add_failed path e) = none

-- What run is to return: the failed start if there is one, or else the first failure, and nothing when
-- a signal came first.
abbrev pub answer : Option Failure → Option Failure → Option Failure
answer (some e) cause = some (wrapped control_start e)
answer none none = none
answer none (some cause) = if is_canceled cause then none else some cause

abbrev pub expected : List Event → Option Failure
expected es = answer (first failed_start es) (first cause_of es)

abbrev pub At : Phase → Process → List Event → Type 0
At starting_server p es = first failed_start es ≡ none
At (adding rest) p es = first failed_start es ≡ none
At waiting p es = first failed_start es ≡ none
At (giving_up e) p es =
    (e0 : Failure) × (e ≡ wrapped control_start e0)
    × (first failed_start es ≡ some e0)
    × (is_done p.ctx ≡ true)
At (exited r) p es =
    (r ≡ expected es) × (p.relay_runs ≡ false) × (p.server_runs ≡ false) × (is_done p.ctx ≡ true)

abbrev pub Inv : List Event → Process → Type 0
Inv es p = (p.ctx ≡ first cause_of es) × At p.phase p es

pub or_first-none : (c : Option Failure) → c ≡ or_first c none
or_first-none none = refl
or_first-none (some c) = refl

-- Events without a failed start leave the phase's condition as it is.
pub no_start :
    (es fs : List Event)
    → first failed_start fs ≡ none
    → first failed_start (es ++ fs) ≡ first failed_start es
no_start es fs h =
    rw (first-append failed_start es fs, h) (sym (or_first-none (first failed_start es)))

pub is_done-or_first : (c d : Option Failure) → is_done c ≡ true → or_first c d ≡ c
is_done-or_first none d h = cc
is_done-or_first (some c) d h = refl

pub At-keep :
    (phase : Phase) (p q : Process) (es fs : List Event)
    → p.ctx ≡ first cause_of es
    → first failed_start fs ≡ none
    → q.ctx ≡ or_first p.ctx (first cause_of fs)
    → (p.relay_runs ≡ false → q.relay_runs ≡ false)
    → (p.server_runs ≡ false → q.server_runs ≡ false)
    → At phase p es
    → At phase q (es ++ fs)
At-keep starting_server p q es fs c h d r s a = no_start es fs h ∙ a
At-keep (adding rest) p q es fs c h d r s a = no_start es fs h ∙ a
At-keep waiting p q es fs c h d r s a = no_start es fs h ∙ a
At-keep (giving_up e) p q es fs c h d r s (e0, e1, f, o) = (
  e0,
  e1,
  no_start es fs h ∙ f,
  ap is_done (d ∙ is_done-or_first p.ctx (first cause_of fs) o) ∙ o,
)
At-keep (exited x) p q es fs c h d r s (e, nr, ns, o) = (
  rw
      (
        no_start es fs h,
        first-append cause_of es fs,
        sym c,
        is_done-or_first p.ctx (first cause_of fs) o,
      )
      (rw c e),
  r nr,
  s ns,
  ap is_done (d ∙ is_done-or_first p.ctx (first cause_of fs) o) ∙ o,
)

pub cancel-or_first :
    (e : Option Failure) (c : Failure) (ctx : Option Failure) (fs : List Event)
    → cancel e none ≡ some c
    → first cause_of fs ≡ some c
    → cancel e ctx ≡ or_first ctx (first cause_of fs)
unfolding cancel
cancel-or_first e c none fs h k = h ∙ sym k
cancel-or_first e c (some d) fs h k = refl

-- The context after events, from the one before.
pub ctx-append :
    (p q : Process) (es fs : List Event)
    → p.ctx ≡ first cause_of es
    → q.ctx ≡ or_first p.ctx (first cause_of fs)
    → q.ctx ≡ first cause_of (es ++ fs)
ctx-append p q es fs c d = rw (first-append cause_of es fs, sym c) d

pub keep :
    (p q : Process) (es fs : List Event)
    → q.phase ≡ p.phase
    → Inv es p
    → first failed_start fs ≡ none
    → q.ctx ≡ or_first p.ctx (first cause_of fs)
    → (p.relay_runs ≡ false → q.relay_runs ≡ false)
    → (p.server_runs ≡ false → q.server_runs ≡ false)
    → Inv (es ++ fs) q
keep p q es fs same (c, a) h d r s = (
  ctx-append p q es fs c d,
  subst (λ x. At x q (es ++ fs)) (sym same) (At-keep p.phase p q es fs c h d r s a),
)

-- The main goroutine leaves a phase in which no start has failed for another one.
pub move :
    (p q : Process) (es fs : List Event)
    → Inv es p
    → first failed_start es ≡ none
    → first failed_start fs ≡ none
    → q.ctx ≡ or_first p.ctx (first cause_of fs)
    → (first failed_start (es ++ fs) ≡ none → At q.phase q (es ++ fs))
    → Inv (es ++ fs) q
move p q es fs (c, a) n h d k = (ctx-append p q es fs c d, k (no_start es fs h ∙ n))
