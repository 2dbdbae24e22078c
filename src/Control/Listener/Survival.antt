-- ===== src/Control/Listener/Survival.antt =====
-- internal/control/server.go: which files NewUnixServer leaves alone.
use netns_mcast_relay.Base.{
  ℕ, ◌≡◌, ◌≢◌, ◌⊎◌, refl, sym, ◌∙◌, subst, true, false, Option, none, some, Text, text_eq,
  text_beq_iff, text_beq, arith, Result, done, fails, ◌>>◌, Bool-cases, Option-cases, inl, inr, ℤ,
}
use netns_mcast_relay.Control.Listener.{
  Stat, not_exist, stat_failed, found, Dial, connected, nobody, dial_failed, Host, ServerError, dir,
  check_arguments, resolve_socket_group, is_active_unix_socket, probe_result, remove_inactive,
  after_stat, remove_stale_socket, give_up, set_group, configure, bind, prepare, new_unix_server,
}
use netns_mcast_relay.Control.Listener.Files.{dead, alive, Files}

module _ {W L : Type 0} (host : Host W L) (f : Files host) where
  open f use {entry, listeners}

  text_cases : (p q : Text) → (p ≡ q) ⊎ (p ≢ q)
  text_cases p q = elim (Bool-cases (text_beq p q)) [
    | inl e ↦ inl ((text_beq_iff p q).0 e)
    | inr e ↦ inr (λ same. ground (arith, text_beq_iff p q))
  ]

  -- Stale means: a socket on which nobody listens.
  abbrev pub Untouched : Text → Text → W → W → Type 0
  Untouched p q w w' = (entry w' q ≡ entry w q) ⊎ ((p ≡ q) × (entry w p ≡ dead))

  remove_inactive-Untouched :
      (p q : Text) (w : W) (d : Dial)
      → host.stat p w ≡ found true
      → (host.dial p w).0 ≡ d
      → Untouched p q w (remove_inactive host p (probe_result host (d, (host.dial p w).1))).1
  remove_inactive-Untouched p q w connected h e =
      inl (f.entry_close_probe q (host.dial p w).1 ∙ f.entry_dial p q w)
  remove_inactive-Untouched p q w dial_failed h e = inl (f.entry_dial p q w)
  remove_inactive-Untouched p q w nobody h e = elim (text_cases p q) [
    | inl same ↦ elim (f.stat_socket p w h) [
      | inl is_dead ↦ inr (same, is_dead)
      | inr is_alive ↦ absurd (f.dial_nobody p w e is_alive)
    ]
    | inr other ↦ inl (f.entry_remove p q (host.dial p w).1 other ∙ f.entry_dial p q w)
  ]

  after_stat-Untouched :
      (p q : Text) (w : W) (s : Stat)
      → host.stat p w ≡ s
      → Untouched p q w (after_stat host p s w).1
  unfolding is_active_unix_socket
  after_stat-Untouched p q w not_exist e = inl refl
  after_stat-Untouched p q w stat_failed e = inl refl
  after_stat-Untouched p q w (found false) e = inl refl
  after_stat-Untouched p q w (found true) e =
      remove_inactive-Untouched p q w (host.dial p w).0 e refl

  -- removeStaleSocket changes no file but a socket at its path on which nobody listens: no other
  -- path, no file of another kind, and no socket that is in use.
  pub remove_stale_socket-Untouched :
      (p q : Text) (w : W) → Untouched p q w (remove_stale_socket host p w).1
  unfolding remove_stale_socket
  remove_stale_socket-Untouched p q w = after_stat-Untouched p q w (host.stat p w) refl

  dial_result :
      (p : Text) (d : Dial) (w : W)
      → (remove_inactive host p (probe_result host (d, w))).0 ≡ done tt
      → d ≡ nobody
  dial_result p connected w h = cc
  dial_result p nobody w h = refl
  dial_result p dial_failed w h = cc

  -- It goes on only if the path is free of a live socket.
  after_stat-done :
      (p : Text) (w : W) (s : Stat)
      → host.stat p w ≡ s
      → (after_stat host p s w).0 ≡ done tt
      → entry w p ≢ alive
  unfolding is_active_unix_socket
  after_stat-done p w not_exist e h lives = ground (arith, f.stat_absent p w)
  after_stat-done p w stat_failed e h lives = cc
  after_stat-done p w (found false) e h lives = cc
  after_stat-done p w (found true) e h lives =
      f.dial_nobody p w (dial_result p (host.dial p w).0 (host.dial p w).1 h) lives

  -- What the steps after that leave of an entry that is alive at another path.
  give_up-entry :
      (p q : Text) (l : L) (w : W)
      → p ≢ q
      → f.path_of l ≡ p
      → entry (give_up host p l w) q ≡ entry w q
  give_up-entry p q l w other own =
      f.entry_remove p q (host.close_listener l w) other
      ∙ f.entry_close l q w (λ same. other (sym own ∙ same))

  set_group-entry :
      (p q : Text) (gid : Option ℕ) (w : W) → entry (set_group host p gid w).1 q ≡ entry w q
  set_group-entry p q none w = refl
  set_group-entry p q (some gid) w = f.entry_chown p q gid w

  configure-entry :
      (p q : Text) (mode : ℕ) (gid : Option ℕ) (l : L) (w : W)
      → p ≢ q
      → f.path_of l ≡ p
      → entry (configure host p mode gid l w).1 q ≡ entry w q
  configure-entry p q mode gid l w other own =
      let w1 = (set_group host p gid w).1 in
      let w2 = (host.chmod p mode w1).1 in
      let owned : entry w1 q ≡ entry w q = set_group-entry p q gid w in
      ground (
        arith,
        owned,
        f.entry_chmod p q mode w1,
        give_up-entry p q l w1 other own,
        give_up-entry p q l w2 other own,
      )

  bind-entry :
      (p q : Text) (mode : ℕ) (gid : Option ℕ) (r : Result ServerError (Unit {0})) (w : W)
      → p ≢ q
      → entry (bind host p mode gid (r, w)).1 q ≡ entry w q
  bind-entry p q mode gid (fails e) w other = refl
  bind-entry p q mode gid (done u) w other =
      let w1 = (host.listen p w).1 in
      elim (Option-cases (host.listen p w).0) [
        | inl gone ↦ rw (gone, bind) (f.entry_listen p q w other)
        | inr (l, got) ↦
            rw (got, bind)
              (configure-entry p q mode gid l w1 other (f.path_listen p w l got)
                ∙ f.entry_listen p q w other)
      ]

  bind-alive :
      (p q : Text) (mode : ℕ) (gid : Option ℕ) (r : Result ServerError (Unit {0})) (w : W)
      → entry w q ≡ alive
      → (r ≡ done tt → entry w q ≡ alive → p ≢ q)
      → entry (bind host p mode gid (r, w)).1 q ≡ alive
  bind-alive p q mode gid (fails e) w lives free = lives
  bind-alive p q mode gid (done u) w lives free =
      bind-entry p q mode gid (done u) w (free refl lives) ∙ lives

  stale-alive :
      (p q : Text) (w : W) → entry w q ≡ alive → entry (remove_stale_socket host p w).1 q ≡ alive
  stale-alive p q w lives = elim (remove_stale_socket-Untouched p q w) [
    | inl same ↦ same ∙ lives
    | inr (same, is_dead) ↦ cc
  ]

  stale-free :
      (p q : Text) (w : W) → entry w q ≡ alive → (remove_stale_socket host p w).0 ≡ done tt → p ≢ q
  unfolding remove_stale_socket
  stale-free p q w lives h same =
      after_stat-done p w (host.stat p w) refl h (subst (λ t. entry w t ≡ alive) (sym same) lives)

  prepare-alive :
      (p q : Text) (mode : ℕ) (g : Result ServerError (Option ℕ)) (w : W)
      → entry w q ≡ alive
      → entry (prepare host p mode g w).1 q ≡ alive
  prepare-alive p q mode (fails e) w lives = lives
  prepare-alive p q mode (done gid) w lives =
      let w1 = (host.mkdir_all (dir p) w).1 in
      let still : entry w1 q ≡ alive = f.entry_mkdir_all (dir p) q w (λ gone. cc) ∙ lives in
      let (r, w2) = remove_stale_socket host p w1 in
      elim (Bool-cases (host.mkdir_all (dir p) w).0) [
        | inl made ↦
            rw (made, prepare)
              (bind-alive p q mode gid r w2 (stale-alive p q w1 still)
                (λ e _. stale-free p q w1 still e))
        | inr failed ↦ rw (failed, prepare) still
      ]

  -- A socket on which somebody listens survives NewUnixServer, at its own path and at every other,
  -- whatever the arguments are and whatever fails.
  pub new_unix_server-alive :
      (path : Text) (timeout : ℤ) (mode : ℕ) (group q : Text) (w : W)
      → entry w q ≡ alive
      → entry (new_unix_server host path timeout mode group w).1 q ≡ alive
  unfolding new_unix_server
  new_unix_server-alive path timeout mode group q w lives =
      prepare-alive path q mode
        (check_arguments path timeout mode >> resolve_socket_group host group) w lives
