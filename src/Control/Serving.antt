-- ===== src/Control/Serving.antt =====
-- internal/control/server.go: Run with its goroutine that calls Shutdown, and the requests in progress.
-- Serve and Shutdown are those of net/http, as its documentation has them: Shutdown closes the
-- listener, whereupon Serve returns ErrServerClosed at once, and itself waits for the requests in
-- progress or for its deadline.
mod Tests
use netns_mcast_relay.Base.{if◌then◌else◌}
use netns_mcast_relay.Base.{
  ℕ, ◌+◌, suc, ◌≡◌, ◌≢◌, refl, sym, ◌∙◌, Bool, true, false, Bool-cases, inl, inr, Option, none,
  some,
}
use netns_mcast_relay.Control.Listener.{ServeError, server_closed, serve_failed, is_closed}

-- `returned` has whether Run returned nil, once it did.
pub record Serving : Type 0 where
  pub context_done : Bool
  pub shutting_down : Bool
  pub shutdown_over : Bool
  pub requests : ℕ
  pub socket_there : Bool
  pub returned : Option Bool

-- Run is called.
unfoldable pub serving : Serving
serving = record {
  context_done = false;
  shutting_down = false;
  shutdown_over = false;
  requests = 0;
  socket_there = true;
  returned = none;
}

-- Run after Serve has returned; a socket that cannot be removed is only logged.
unfoldable pub after_serve : ServeError → Bool → Serving → Serving
after_serve e removed s = record s {
  socket_there = if removed then false else s.socket_there;
  returned = some (is_closed e);
}

pub data Step (s : Serving) : Serving → Type 0 where
  end_context : Step s (record s { context_done = true })
  -- A request is accepted while the listener is open, and is answered.
  request :
      s.shutting_down ≡ false → s.returned ≡ none → Step s (record s { requests = s.requests + 1 })
  answer : (left : ℕ) → s.requests ≡ suc left → Step s (record s { requests = left })
  -- The goroutine wakes up when the context is done.
  call_shutdown :
      s.context_done ≡ true → s.shutting_down ≡ false → Step s (record s { shutting_down = true })
  -- Shutdown returns: every request has been answered, or its deadline has passed.
  shutdown_done :
      s.shutting_down ≡ true → s.requests ≡ 0 → Step s (record s { shutdown_over = true })
  shutdown_late : s.shutting_down ≡ true → Step s (record s { shutdown_over = true })
  serve_closed :
      (removed : Bool)
      → s.returned ≡ none
      → s.shutting_down ≡ true
      → Step s (after_serve server_closed removed s)
  serve_fails :
      (removed : Bool)
      → s.returned ≡ none
      → s.shutting_down ≡ false
      → Step s (after_serve serve_failed removed s)

pub data Reach (s : Serving) : Serving → Type 0 where
  here : Reach s s
  next : {t u : Serving} → Reach s t → Step t u → Reach s u

-- Shutdown is called after the end of the context only, and a nil of Run comes after that.
record Explained (s : Serving) : Type 0 where
  called : s.shutting_down ≡ true → s.context_done ≡ true
  closed : s.returned ≡ some true → s.shutting_down ≡ true

Step-Explained : (s t : Serving) → Step s t → Explained s → Explained t
unfolding after_serve
Step-Explained s t end_context x = record { called = λ h. refl; closed = x.closed }
Step-Explained s t (request listens runs) x = record { called = x.called; closed = x.closed }
Step-Explained s t (answer left e) x = record { called = x.called; closed = x.closed }
Step-Explained s t (call_shutdown done first) x = record { called = λ h. done; closed = λ h. refl }
Step-Explained s t (shutdown_done called none_left) x = record {
  called = x.called;
  closed = x.closed;
}
Step-Explained s t (shutdown_late called) x = record { called = x.called; closed = x.closed }
Step-Explained s t (serve_closed removed runs called) x = record {
  called = x.called;
  closed = λ h. called;
}
Step-Explained s t (serve_fails removed runs listens) x = record {
  called = x.called;
  closed = λ h. cc;
}

Reach-Explained : (s : Serving) → Reach serving s → Explained s
unfolding serving
Reach-Explained s here = record { called = λ h. cc; closed = λ h. cc }
Reach-Explained s (next {t} before move) = Step-Explained t s move (Reach-Explained t before)

-- Whatever the order of requests, failures and the end of the context, Run returns nil only after its
-- context is done.
pub Reach-returned :
    (s : Serving) → Reach serving s → s.returned ≡ some true → s.context_done ≡ true
Reach-returned s reach h = let x = Reach-Explained s reach in x.called (x.closed h)

-- Run comes to return nil while as many requests are in progress and Shutdown, which waits for them, has
-- not returned.
abbrev pub ReturnsEarly : Serving → Type 0
ReturnsEarly s =
    (t : Serving) × Reach s t
    × (t.returned ≡ some true)
    × (t.requests ≡ s.requests)
    × (t.shutdown_over ≡ false)

-- Before Shutdown has returned, Run can return nil wherever it is after the end of its context.
pub returned_early :
    (s : Serving)
    → s.returned ≡ none
    → s.context_done ≡ true
    → s.shutdown_over ≡ false
    → ReturnsEarly s
unfolding after_serve
returned_early s runs done waits = elim (Bool-cases s.shutting_down) [
  | inl called ↦ (
    after_serve server_closed true s,
    next here (serve_closed true runs called),
    refl,
    refl,
    waits,
  )
  | inr first ↦
      let t = record s { shutting_down = true } in
      (
        after_serve server_closed true t,
        next {t = t} (next here (call_shutdown done first)) (serve_closed true runs refl),
        refl,
        refl,
        waits,
      )
]
