-- ===== src/Control/Listener/Count.antt =====
-- internal/control/server.go: how many listeners NewUnixServer leaves open.
use netns_mcast_relay.Base.{
  ℕ, ◌+◌, ◌≡◌, refl, ◌∙◌, subst, Option, none, some, Text, text_eq, arith, Result, done, fails,
  ◌>>◌, Bool-cases, Option-cases, inl, inr, ℤ,
}
use netns_mcast_relay.Control.Listener.{
  Host, ServerError, dir, check_arguments, resolve_socket_group, remove_stale_socket, set_group,
  configure, bind, prepare, new_unix_server,
}
use netns_mcast_relay.Control.Listener.Files.{Files}

module _ {W L : Type 0} (host : Host W L) (f : Files host) where
  open f use {entry, listeners}

  listeners-remove_stale_socket :
      (p : Text) (w : W) → listeners (remove_stale_socket host p w).1 ≡ listeners w
  unfolding remove_stale_socket
  listeners-remove_stale_socket p w =
      let w1 = (host.dial p w).1 in
      ground (arith, f.listeners_dial p w, f.listeners_close_probe w1, f.listeners_remove p w1)

  set_group-listeners :
      (p : Text) (gid : Option ℕ) (w : W) → listeners (set_group host p gid w).1 ≡ listeners w
  set_group-listeners p none w = refl
  set_group-listeners p (some gid) w = f.listeners_chown p gid w

  -- A server holds one listener, and an error none.
  abbrev pub Counted : ℕ → Result ServerError L × W → Type 0
  Counted before (done l, w) = listeners w ≡ before + 1
  Counted before (fails e, w) = listeners w ≡ before

  configure-Counted :
      (p : Text) (mode : ℕ) (gid : Option ℕ) (l : L) (before : ℕ) (w : W)
      → listeners w ≡ before + 1
      → Counted before (configure host p mode gid l w)
  configure-Counted p mode gid l before w h =
      let w1 = (set_group host p gid w).1 in
      let w2 = (host.chmod p mode w1).1 in
      ground (
        arith,
        set_group-listeners p gid w,
        f.listeners_chmod p mode w1,
        f.listeners_close l w1,
        f.listeners_close l w2,
        f.listeners_remove p (host.close_listener l w1),
        f.listeners_remove p (host.close_listener l w2),
      )

  bind-Counted :
      (p : Text) (mode : ℕ) (gid : Option ℕ) (r : Result ServerError (Unit {0})) (w : W)
      → Counted (listeners w) (bind host p mode gid (r, w))
  bind-Counted p mode gid (fails e) w = refl
  bind-Counted p mode gid (done u) w =
      let w1 = (host.listen p w).1 in
      elim (Option-cases (host.listen p w).0) [
        | inl gone ↦
            rw (gone, bind) (let e = rw gone at (f.listeners_listen p w) in omega (arith, e))
        | inr (l, got) ↦
            rw (got, bind)
              (configure-Counted p mode gid l (listeners w) w1 (rw got at (f.listeners_listen p w)))
      ]

  prepare-Counted :
      (p : Text) (mode : ℕ) (g : Result ServerError (Option ℕ)) (w : W)
      → Counted (listeners w) (prepare host p mode g w)
  prepare-Counted p mode (fails e) w = refl
  prepare-Counted p mode (done gid) w =
      let w1 = (host.mkdir_all (dir p) w).1 in
      let (r, w2) = remove_stale_socket host p w1 in
      let e : listeners w2 ≡ listeners w =
        listeners-remove_stale_socket p w1 ∙ f.listeners_mkdir_all (dir p) w in
      elim (Bool-cases (host.mkdir_all (dir p) w).0) [
        | inl made ↦
            rw (made, prepare)
              (subst (λ n. Counted n (bind host p mode gid (r, w2))) e
                (bind-Counted p mode gid r w2))
        | inr failed ↦ rw (failed, prepare) (f.listeners_mkdir_all (dir p) w)
      ]

  -- NewUnixServer leaves no listener open when it fails, and one when it succeeds, on every path
  -- through the code.
  pub new_unix_server-Counted :
      (path : Text) (timeout : ℤ) (mode : ℕ) (group : Text) (w : W)
      → Counted (listeners w) (new_unix_server host path timeout mode group w)
  unfolding new_unix_server
  new_unix_server-Counted path timeout mode group w =
      prepare-Counted path mode
        (check_arguments path timeout mode >> resolve_socket_group host group) w
