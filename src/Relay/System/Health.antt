-- ===== src/Relay/System/Health.antt =====
-- internal/relay/relay.go: each operation on the map of namespaces keeps them healthy.
use netns_mcast_relay.Base.{
  ℕ, ◌≤◌, ◌≡◌, ◌≢◌, refl, Bool, ◌&&◌, Option, none, some, List, [], ◌∷◌, ◌++◌, Text, text_eq,
  text_beq_iff, Map, lookup, delete, length, length-append, arith, AllEntries, insert-AllEntries,
  delete-AllEntries, Option-cases, Bool-cases, inl, inr,
}
use netns_mcast_relay.Net.{UdpAddr}
use netns_mcast_relay.Middleware.{Packet}
use netns_mcast_relay.Relay.{Platform, Instance, channel_buffer}
use netns_mcast_relay.Relay.Namespace.{instance_of, build_instance, teardown}
use netns_mcast_relay.Relay.Coordinator.{
  Snapshot, apply_removals, add_built, add_one, apply_additions, on_done,
}
use netns_mcast_relay.Relay.Broadcast.{is_target, visit, count_drop, fan_out}

-- No packet of the list came from `path`.
abbrev pub NoEcho : Text → List Packet → Type 0
NoEcho path [] = Unit
NoEcho path (pkt ∷ pkts) = (pkt.source_path ≢ path) × NoEcho path pkts

NoEcho-concat :
    (path : Text) (pkts : List Packet) (pkt : Packet)
    → NoEcho path pkts
    → pkt.source_path ≢ path
    → NoEcho path (pkts ++ pkt ∷ [])
NoEcho-concat path [] pkt h k = (k, tt)
NoEcho-concat path (p ∷ pkts) pkt h k = (h.0, NoEcho-concat path pkts pkt h.1 k)

module _ {H S : Type 0} where
  -- A namespace bears the path that it is listed under, and its queue is within its capacity and
  -- holds no packet of its own.
  pub record IsHealthy (path : Text) (inst : Instance H S) : Type 0 where
    pub named : inst.path ≡ path
    pub bounded : length inst.send_ch ≤ channel_buffer
    pub no_echo : NoEcho path inst.send_ch

  pub visit-IsHealthy :
      (pkt : Packet) (path : Text) (inst : Instance H S)
      → IsHealthy path inst
      → IsHealthy path (visit pkt path inst)
  visit-IsHealthy pkt path inst h = ground (
    arith,
    text_beq_iff path pkt.source_path,
    length-append inst.send_ch (pkt ∷ []),
    NoEcho-concat path inst.send_ch pkt h.no_echo,
  )

  pub fan_out-AllEntries :
      (done_at : Text → Bool) (pkt : Packet) (snap : Map Text (Instance H S)) (dropped : ℕ)
      → AllEntries IsHealthy snap
      → AllEntries IsHealthy (fan_out done_at pkt snap dropped).0
  unfolding fan_out
  fan_out-AllEntries done_at pkt [] dropped a = tt
  fan_out-AllEntries done_at pkt ((path, inst) ∷ rest) dropped a =
      elim (Bool-cases (is_target pkt path inst && done_at path)) [
        | inl e ↦ rw e a
        | inr e ↦ rw e (
          visit-IsHealthy pkt path inst a.0,
          fan_out-AllEntries done_at pkt rest (count_drop pkt path inst dropped) a.1,
        )
      ]

module _ {W H S : Type 0} (os : Platform W H S) where
  abbrev pub BuiltHealthy : Text → Option (Instance H S) × W → Type 0
  BuiltHealthy path (none, w) = Unit
  BuiltHealthy path (some inst, w) = IsHealthy path inst

  instance_of-BuiltHealthy :
      (path : Text) (h : H) (r : _) → BuiltHealthy path (instance_of os path h r)
  instance_of-BuiltHealthy path h (none, w) = tt
  instance_of-BuiltHealthy path h (some (ss, m), w) = record {
    named = refl;
    bounded = omega arith;
    no_echo = tt;
  }

  pub build_instance-BuiltHealthy :
      (groups : List UdpAddr) (path : Text) (w : W)
      → BuiltHealthy path (build_instance os groups path w)
  unfolding build_instance
  build_instance-BuiltHealthy groups path w = elim (Option-cases (os.open_namespace path w).0) [
    | inl gone ↦ rw (gone, build_instance) tt
    | inr (h, found) ↦ rw (found, build_instance) (instance_of-BuiltHealthy path h _)
  ]

  add_built-AllEntries :
      (p : Text) (snap : Snapshot os) (r : Option (Instance H S) × W)
      → BuiltHealthy p r
      → AllEntries IsHealthy snap
      → AllEntries IsHealthy (add_built os p snap r).0
  add_built-AllEntries p snap (none, w) b a = a
  add_built-AllEntries p snap (some inst, w) b a = insert-AllEntries IsHealthy p inst snap b a

  add_one-AllEntries :
      (groups : List UdpAddr) (p : Text) (snap : Snapshot os) (w : W)
      → AllEntries IsHealthy snap
      → AllEntries IsHealthy (add_one os groups p snap w).0
  unfolding add_one
  add_one-AllEntries groups p snap w a = elim (Option-cases (lookup p snap)) [
    | inl gone ↦
        rw (gone, add_one)
          (add_built-AllEntries p snap _ (build_instance-BuiltHealthy groups p w) a)
    | inr (inst, found) ↦ rw (found, add_one) a
  ]

  pub apply_additions-AllEntries :
      (groups : List UdpAddr) (ds : Map Text Bool) (snap : Snapshot os) (w : W)
      → AllEntries IsHealthy snap
      → AllEntries IsHealthy (apply_additions os groups ds snap w).0
  unfolding apply_additions
  apply_additions-AllEntries groups [] snap w a = a
  apply_additions-AllEntries groups ((p, _) ∷ ds) snap w a =
      apply_additions-AllEntries groups ds (add_one os groups p snap w).0
        (add_one os groups p snap w).1 (add_one-AllEntries groups p snap w a)

  pub apply_removals-AllEntries :
      (ds : Map Text Bool) (snap : Snapshot os) (w : W)
      → AllEntries IsHealthy snap
      → AllEntries IsHealthy (apply_removals os ds snap w).0
  unfolding apply_removals
  apply_removals-AllEntries [] snap w a = a
  apply_removals-AllEntries ((p, _) ∷ ds) snap w a = elim (Option-cases (lookup p snap)) [
    | inl gone ↦ rw (gone, apply_removals) (apply_removals-AllEntries ds snap w a)
    | inr (inst, found) ↦
        rw (found, apply_removals)
          (apply_removals-AllEntries ds (delete p snap) (teardown os inst w)
            (delete-AllEntries IsHealthy p snap a))
  ]

  pub on_done-AllEntries :
      (snap : Snapshot os) (w : W)
      → AllEntries IsHealthy snap
      → AllEntries IsHealthy (on_done os snap w).0
  unfolding on_done
  on_done-AllEntries [] w a = tt
  on_done-AllEntries ((p, inst) ∷ rest) w a = (
    record { named = a.0.named; bounded = a.0.bounded; no_echo = a.0.no_echo },
    on_done-AllEntries rest (teardown os inst w) a.1,
  )
