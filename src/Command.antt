-- ===== src/Command.antt =====
-- cmd/relay/main.go: run, from the parsed configuration to the exit. The main goroutine, the relay, the
-- control server and the goroutine that waits for signals run as interleaved steps; what the calls of
-- the other packages return is an argument of the step that takes their answer.
pub mod Events
pub mod Outcome
pub mod Initial
mod Tests
use netns_mcast_relay.Base.{
  ◌≡◌, ◌≢◌, Bool, true, false, ◌&&◌, Option, none, some, List, [], ◌∷◌, ◌++◌, Text, if◌then◌else◌,
  Result, done, fails,
}
use netns_mcast_relay.Config.{Config}

-- The texts that fmt.Errorf puts around an error with %w.
pub data Wrap : Type 0 where
  configuration relay_creation relay_loop control_start control_loop : Wrap
  initial_namespace : Text → Wrap

-- An error: context.Canceled, one that another package made and that is not it, or a wrapped one.
pub data Failure : Type 0 where
  canceled : Failure
  other : Failure
  wrapped : Wrap → Failure → Failure

-- errors.Is(err, context.Canceled)
unfoldable pub is_canceled : Failure → Bool
is_canceled canceled = true
is_canceled other = false
is_canceled (wrapped w e) = is_canceled e

-- The cause of the context, once it is cancelled, and cancel: the first call sets it, and nil stands
-- for context.Canceled.
abbrev pub Context : Type 0
Context = Option Failure

abbrev pub cause_or_canceled : Option Failure → Failure
cause_or_canceled none = canceled
cause_or_canceled (some e) = e

unfoldable pub cancel : Option Failure → Context → Context
cancel e none = some (cause_or_canceled e)
cancel e (some cause) = some cause

abbrev pub is_done : Context → Bool
is_done none = false
is_done (some cause) = true

-- Where the main goroutine is; `exited` has what run returns.
pub data Phase : Type 0 where
  starting_server : Phase
  adding : List Text → Phase
  waiting : Phase
  giving_up : Failure → Phase
  exited : Option Failure → Phase

pub record Process : Type 0 where
  pub ctx : Context
  pub phase : Phase
  pub watches_signals : Bool
  pub relay_runs : Bool
  pub server_runs : Bool

-- What happened, in order.
pub data Event : Type 0 where
  signalled : Event
  relay_failed : Failure → Event
  server_failed : Failure → Event
  start_failed : Failure → Event
  added : Text → Event
  add_failed : Text → Failure → Event

-- Up to the start of the relay's goroutine: what config.Parse and relay.New return.
unfoldable pub start : Option Failure → Option Failure → Process
start (some e) created = record {
  ctx = none;
  phase = exited (some (wrapped configuration e));
  watches_signals = false;
  relay_runs = false;
  server_runs = false;
}
start none (some e) = record {
  ctx = none;
  phase = exited (some (wrapped relay_creation e));
  watches_signals = false;
  relay_runs = false;
  server_runs = false;
}
start none none = record {
  ctx = none;
  phase = starting_server;
  watches_signals = true;
  relay_runs = true;
  server_runs = false;
}

-- The relay's goroutine, with what Run returns.
unfoldable pub after_relay : Option Failure → Process → Process
unfolding cancel
after_relay none p = record p { relay_runs = false }
after_relay (some e) p = record p {
  relay_runs = false;
  ctx = cancel (some (wrapped relay_loop e)) p.ctx;
}

-- The control server's goroutine, likewise.
unfoldable pub after_server : Option Failure → Process → Process
unfolding cancel
after_server none p = record p { server_runs = false }
after_server (some e) p = record p {
  server_runs = false;
  ctx = cancel (some (wrapped control_loop e)) p.ctx;
}

-- What NewUnixServer returned.
unfoldable pub after_start : List Text → Option Failure → Process → Process
unfolding cancel
after_start initial none p = record p { phase = adding initial; server_runs = true }
after_start initial (some e) p = record p {
  ctx = cancel (some e) p.ctx;
  phase = giving_up (wrapped control_start e);
}

-- What AddNamespace returned for the next of the initial namespaces.
unfoldable pub after_add : Text → List Text → Option Failure → Process → Process
unfolding cancel is_canceled
after_add path rest none p = record p { phase = adding rest }
after_add path rest (some e) p =
    if is_canceled e && is_done p.ctx then record p { phase = waiting } else record p {
      ctx = cancel (some (wrapped (initial_namespace path) e)) p.ctx;
      phase = waiting;
    }

-- What run returns for the cause of its context.
unfoldable pub verdict : Failure → Option Failure
unfolding is_canceled
verdict cause = if is_canceled cause then none else some cause

-- The return, with the deferred cancel(nil).
unfoldable pub exit : Option Failure → Process → Process
unfolding cancel
exit e p = record p { ctx = cancel none p.ctx; phase = exited e }

abbrev pub event_of : (Failure → Event) → Option Failure → List Event
event_of event none = []
event_of event (some e) = event e ∷ []

abbrev pub add_event : Text → Option Failure → List Event
add_event path none = added path ∷ []
add_event path (some e) = add_failed path e ∷ []

-- A step of one of the goroutines, with what happens in it.
pub data Step (cfg : Config) (p : Process) : List Event → Process → Type 0 where
  signal :
      p.watches_signals ≡ true
      → Step cfg p (signalled ∷ []) (record p { ctx = cancel none p.ctx; watches_signals = false })
  unwatch :
      p.watches_signals ≡ true
      → is_done p.ctx ≡ true
      → Step cfg p [] (record p { watches_signals = false })
  relay_ends :
      (e : Option Failure)
      → p.relay_runs ≡ true
      → Step cfg p (event_of relay_failed e) (after_relay e p)
  server_ends :
      (e : Option Failure)
      → p.server_runs ≡ true
      → Step cfg p (event_of server_failed e) (after_server e p)
  no_server :
      p.phase ≡ starting_server
      → cfg.control_socket_path ≡ []
      → Step cfg p [] (record p { phase = adding cfg.initial_namespaces })
  server_starts :
      (e : Option Failure)
      → p.phase ≡ starting_server
      → cfg.control_socket_path ≢ []
      → Step cfg p (event_of start_failed e) (after_start cfg.initial_namespaces e p)
  add :
      (path : Text) (rest : List Text) (e : Option Failure)
      → p.phase ≡ adding (path ∷ rest)
      → Step cfg p (add_event path e) (after_add path rest e p)
  all_added : p.phase ≡ adding [] → Step cfg p [] (record p { phase = waiting })
  finish :
      (cause : Failure)
      → p.phase ≡ waiting
      → p.ctx ≡ some cause
      → p.relay_runs ≡ false
      → p.server_runs ≡ false
      → Step cfg p [] (exit (verdict cause) p)
  finish_early :
      (e : Failure)
      → p.phase ≡ giving_up e
      → p.relay_runs ≡ false
      → p.server_runs ≡ false
      → Step cfg p [] (exit (some e) p)

pub data Reach (cfg : Config) (p : Process) : List Event → Process → Type 0 where
  here : Reach cfg p [] p
  next :
      {es fs : List Event} {q r : Process}
      → Reach cfg p es q
      → Step cfg q fs r
      → Reach cfg p (es ++ fs) r
