-- ===== src/Relay/Coordinator.antt =====
-- internal/relay/relay.go: the coordinator goroutine, one function for each case of its `select`.
-- Times are nanoseconds.
pub mod Intents
pub mod Reconcile
pub mod Balance
use netns_mcast_relay.Base.{
  ℕ, ◌+◌, Bool, true, false, Option, none, some, List, [], ◌∷◌, Text, text_eq, Map, lookup, insert,
  delete, leb, if◌then◌else◌,
}
use netns_mcast_relay.Net.{UdpAddr}
use netns_mcast_relay.Relay.{Platform, Instance, debounce_window}
use netns_mcast_relay.Relay.Namespace.{build_instance, teardown}

pub data NsCmdType : Type 0 where
  ns_cmd_add ns_cmd_remove : NsCmdType

pub record NsCmd : Type 0 where
  pub op : NsCmdType
  pub path : Text

-- The variables of `coordinate`. A timer is its deadline, and nil is `none`.
pub record Pending : Type 0 where
  pub pending_add : Map Text Bool
  pub pending_del : Map Text Bool
  pub timer : Option ℕ

unfoldable pub idle : Pending
idle = record { pending_add = []; pending_del = []; timer = none }

-- The `switch` on the command.
unfoldable pub record_intent : NsCmdType → Text → Pending → Pending
record_intent ns_cmd_add path s = record s {
  pending_add = insert path true s.pending_add;
  pending_del = delete path s.pending_del;
}
record_intent ns_cmd_remove path s = record s {
  pending_del = insert path true s.pending_del;
  pending_add = delete path s.pending_add;
}

-- case cmd := <-r.nsCmdCh, at time `now`. A new timer and one that is stopped, drained and reset end
-- up with the same deadline. The result channel has room for the answer nil, so sending it does not
-- wait.
unfoldable pub on_command : ℕ → NsCmd → Pending → Pending
unfolding record_intent
on_command now cmd s = record (record_intent cmd.op cmd.path s) {
  timer = some (now + debounce_window);
}

module _ {W H S : Type 0} (os : Platform W H S) where
  abbrev pub Snapshot : Type 0
  Snapshot = Map Text (Instance H S)

  -- `for p := range pendingDel`
  unfoldable pub apply_removals : Map Text Bool → Snapshot → W → Snapshot × W
  apply_removals [] next w = (next, w)
  apply_removals ((p, _) ∷ ps) next w = elim (lookup p next) [
    | none ↦ apply_removals ps next w
    | some inst ↦ apply_removals ps (delete p next) (teardown os inst w)
  ]

  -- A namespace that could not be built is left out.
  abbrev pub add_built : Text → Snapshot → Option (Instance H S) × W → Snapshot × W
  add_built p next (some inst, w) = (insert p inst next, w)
  add_built p next (none, w) = (next, w)

  -- The body of `for p := range pendingAdd`.
  unfoldable pub add_one : List UdpAddr → Text → Snapshot → W → Snapshot × W
  add_one groups p next w = elim (lookup p next) [
    | some _ ↦ (next, w)
    | none ↦ add_built p next (build_instance os groups p w)
  ]

  unfoldable pub apply_additions : List UdpAddr → Map Text Bool → Snapshot → W → Snapshot × W
  unfolding add_one
  apply_additions groups [] next w = (next, w)
  apply_additions groups ((p, _) ∷ ps) next w =
      let (next', w') = add_one groups p next w in apply_additions groups ps next' w'

  -- reconcile: removals first, then additions, on a copy of the current map.
  unfoldable pub reconcile : List UdpAddr → Pending → Snapshot → W → Pending × Snapshot × W
  unfolding apply_removals apply_additions
  reconcile groups s cur w =
      let (kept, w') = apply_removals s.pending_del cur w in
      let (next, w'') = apply_additions groups s.pending_add kept w' in
      (record s { pending_add = []; pending_del = [] }, next, w'')

  -- case <-timerCh: the timer is cleared before the reconcile.
  unfoldable pub on_timer : List UdpAddr → Pending → Snapshot → W → Pending × Snapshot × W
  unfolding reconcile
  on_timer groups s cur w = reconcile groups (record s { timer = none }) cur w

  -- case <-ctx.Done(): every instance is torn down, and its context cancelled. The map stays.
  unfoldable pub on_done : Snapshot → W → Snapshot × W
  on_done [] w = ([], w)
  on_done ((p, inst) ∷ rest) w =
      let (rest', w') = on_done rest (teardown os inst w) in
      ((p, record inst { cancelled = true }) ∷ rest', w')
