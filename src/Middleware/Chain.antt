-- ===== src/Middleware/Chain.antt =====
-- internal/middleware/middleware.go: how a chain runs its middlewares.
use netns_mcast_relay.Base.{◌≡◌, false, List, [], ◌∷◌, ◌++◌, arith, if◌then◌else◌}
use netns_mcast_relay.Middleware.{Packet, is_dropped, Middleware, chain_process, chain}

module _ {S : Type 0} where
  -- Running two chains one after the other, the second only on a packet that the first lets through.
  unfoldable pub then_process : Middleware S → Middleware S → S → Packet → S × Packet
  then_process a b s p =
      let (s', p') = a.process s p in if is_dropped p' then (s', p') else b.process s' p'

  -- Putting two chains together runs the second on what the first lets through, and on nothing that
  -- the first drops; the packet comes in with data.
  pub chain_process-append :
      (ms ns : List (Middleware S)) (s : S) (p : Packet)
      → is_dropped p ≡ false
      → chain_process (ms ++ ns) s p ≡ then_process (chain ms) (chain ns) s p
  unfolding chain_process then_process chain
  chain_process-append [] ns s p h = ground arith
  chain_process-append (m ∷ ms) ns s p h =
      ground (arith, chain_process-append ms ns (m.process s p).0 (m.process s p).1)
