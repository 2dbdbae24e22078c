-- ===== src/Relay/Api/Accepted.antt =====
-- internal/control/server.go and internal/relay/relay.go together: what becomes of a namespace whose
-- addition or removal the control API has accepted.
use netns_mcast_relay.Base.{
  ℕ, ◌≡◌, ◌≢◌, refl, Bool, true, false, Option, none, some, List, Text, Bytes, text_eq, lookup,
  lookup-insert, lookup-delete, arith, beq_self, subst, sym, ◌∙◌,
}
use netns_mcast_relay.Net.{UdpAddr}
use netns_mcast_relay.Relay.{Platform, Instance}
use netns_mcast_relay.Relay.Namespace.{build_instance}
use netns_mcast_relay.Relay.Coordinator.{
  NsCmdType, ns_cmd_add, ns_cmd_remove, NsCmd, on_command, on_timer, Snapshot,
}
use netns_mcast_relay.Relay.Coordinator.Intents.{
  on_commands, last_intent, IsPending, on_commands-IsPending,
}
use netns_mcast_relay.Relay.Coordinator.Reconcile.{Settled, Added, reconcile-Settled}
use netns_mcast_relay.Relay.System.{System, after_timer}
use netns_mcast_relay.Relay.Api.{Choice, submit, relay_controller}
use netns_mcast_relay.Control.Handlers.{
  Controller, Payload, answer, intent, add, remove, Body, Server, post_add, post_remove, handle,
  check_path, path_of,
}

module _ {W H S : Type 0} (md5 : Bytes → Bytes) (os : Platform W H S) (groups : List UdpAddr) where
  -- The relay after the commands that came later, and the reconcile.
  abbrev pub reconciled : List (ℕ × NsCmd) → System md5 os groups → System md5 os groups
  reconciled cs s = after_timer md5 os groups (record s { pending = on_commands cs s.pending })

  reconciled-Settled :
      (op : NsCmdType) (path : Text) (cs : List (ℕ × NsCmd)) (s : System md5 os groups)
      → last_intent path cs ≡ none
      → IsPending
          (some op)
          none
          none
          (lookup path s.pending.pending_add)
          (lookup path s.pending.pending_del)
      → Settled os groups path (some op) (lookup path s.snap) (lookup path (reconciled cs s).snap)
  unfolding after_timer on_timer
  reconciled-Settled op path cs s quiet h =
      let later = on_commands cs s.pending in
      let (same_add, same_del) = rw quiet at (on_commands-IsPending cs s.pending path) in
      reconcile-Settled os groups (record later { timer = none }) s.snap s.world path (some op)
        (rw (same_add, same_del) h)

  submit-IsPending :
      (op : NsCmdType) (path : Text) (choice : Choice) (s : System md5 os groups)
      → (submit md5 os groups op path choice s).0 ≡ true
      → let s' = (submit md5 os groups op path choice s).1 in
        IsPending
          (some op)
          none
          none
          (lookup path s'.pending.pending_add)
          (lookup path s'.pending.pending_del)
        × (s'.snap ≡ s.snap)
  unfolding submit on_command
  submit-IsPending ns_cmd_add path choice s h = ground (
    arith,
    beq_self text_eq path,
    lookup-insert path path true s.pending.pending_add,
    lookup-delete path path s.pending.pending_del,
  )
  submit-IsPending ns_cmd_remove path choice s h = ground (
    arith,
    beq_self text_eq path,
    lookup-insert path path true s.pending.pending_del,
    lookup-delete path path s.pending.pending_add,
  )

  submit-Settled :
      (op : NsCmdType) (path : Text) (choice : Choice) (cs : List (ℕ × NsCmd))
      (s : System md5 os groups)
      → (submit md5 os groups op path choice s).0 ≡ true
      → last_intent path cs ≡ none
      → Settled os groups path
          (some op)
          (lookup path s.snap)
          (lookup path (reconciled cs (submit md5 os groups op path choice s).1).snap)
  submit-Settled op path choice cs s h quiet =
      let s' = (submit md5 os groups op path choice s).1 in
      let (pending, same) = submit-IsPending op path choice s h in
      subst
        (λ (m : Snapshot os).
          Settled os groups path (some op) (lookup path m) (lookup path (reconciled cs s').snap))
        same (reconciled-Settled op path cs s' quiet pending)

  Added-some :
      (path : Text) (old new : Option (Instance H S))
      → ((w : W) → (build_instance os groups path w).0 ≢ none)
      → Added os groups path true old new
      → new ≢ none
  Added-some path none new builds (w, e) gone = builds w (sym e ∙ gone)
  Added-some path (some inst) new builds e gone = cc

  module _ (choose : System md5 os groups → Choice) where
    abbrev controller : Controller (System md5 os groups)
    controller = relay_controller md5 os groups choose

    answer-accepted :
        (b : Bool) (payload : Payload) → (answer controller b payload).status ≡ 202 → b ≡ true
    answer-accepted true payload h = refl
    answer-accepted false payload h = absurd (omega (arith, h))

    -- An addition that the control API has accepted takes effect: after the next reconcile the
    -- namespace is active, if it can be built, whatever commands for other namespaces came in
    -- between.
    pub post_add-active :
        (body : Body) (path : Text) (s : Server controller) (cs : List (ℕ × NsCmd))
        → check_path body ≡ path_of path
        → (handle controller (post_add body) s).1.status ≡ 202
        → last_intent path cs ≡ none
        → ((w : W) → (build_instance os groups path w).0 ≢ none)
        → lookup path (reconciled cs (handle controller (post_add body) s).0.controller).snap ≢ none
    unfolding handle relay_controller
    post_add-active body path s cs e accepted quiet builds =
        let choice = choose s.controller in
        let taken =
          answer-accepted (submit md5 os groups ns_cmd_add path choice s.controller).0
            (intent add none (some path)) (rw e at accepted) in
        rw e (
          Added-some path (lookup path s.controller.snap) _ builds
            (submit-Settled ns_cmd_add path choice cs s.controller taken quiet))

    -- A removal that it has accepted takes effect too.
    pub post_remove-gone :
        (body : Body) (path : Text) (s : Server controller) (cs : List (ℕ × NsCmd))
        → check_path body ≡ path_of path
        → (handle controller (post_remove body) s).1.status ≡ 202
        → last_intent path cs ≡ none
        → lookup path (reconciled cs (handle controller (post_remove body) s).0.controller).snap
          ≡ none
    unfolding handle relay_controller
    post_remove-gone body path s cs e accepted quiet =
        let choice = choose s.controller in
        let taken =
          answer-accepted (submit md5 os groups ns_cmd_remove path choice s.controller).0
            (intent remove none (some path)) (rw e at accepted) in
        rw e (submit-Settled ns_cmd_remove path choice cs s.controller taken quiet)
