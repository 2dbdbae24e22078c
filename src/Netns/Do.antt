-- ===== src/Netns/Do.antt =====
-- internal/netns/netns.go: NSHandle.Do, over the calls of the package netns that it makes. The OS
-- thread is locked throughout, so the state below is that of one thread.
pub mod Restored
mod Tests
use netns_mcast_relay.Base.{Bool, ◌&&◌, Option, none, some, if◌then◌else◌}

-- Get, Set and Close of namespace handles `N`, over a state `W` of the system; `true` is a nil error.
pub record Namespaces (W N : Type 0) : Type 0 where
  pub get_current : W → Option N × W
  pub set_namespace : N → W → Bool × W
  pub close_handle : N → W → Bool × W

module _ {W N : Type 0} (ns : Namespaces W N) {A : Type 0} where
  -- The deferred calls run last in, first out: the namespace is restored, then the handle is closed.
  -- An error of either joins the result.
  abbrev pub finish : N → Option A → W → Option A × W
  finish saved result w =
      let (restored, w1) = ns.set_namespace saved w in
      let (closed, w2) = ns.close_handle saved w1 in
      (if restored && closed then result else none, w2)

  -- With the saved handle. If the switch fails, only the saved handle is closed.
  abbrev pub run_in : N → (W → Option A × W) → N → W → Option A × W
  run_in target fn saved w =
      let (switched, w1) = ns.set_namespace target w in
      let (result, w2) = fn w1 in
      if switched then finish saved result w2 else (none, (ns.close_handle saved w1).1)

  -- `fn` gives what it leaves in its caller's variables, or `none` for an error.
  unfoldable pub do_in : N → (W → Option A × W) → W → Option A × W
  do_in target fn w =
      let (current, w1) = ns.get_current w in
      elim current [ none ↦ (none, w1) | some saved ↦ run_in target fn saved w1 ]
