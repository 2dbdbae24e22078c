-- ===== src/Relay/Concurrent/Runners.antt =====
-- internal/relay/relay.go: an instance and its goroutines, in each kind of step.
use netns_mcast_relay.Base.{
  ℕ, ◌≡◌, refl, sym, ◌∙◌, ap, subst, Bool, true, false, Option, none, some, List, [], ◌∷◌, ◌++◌,
  map, Text, text_eq, nat_eq, Map, length, AllEntries, arith,
}
use netns_mcast_relay.Middleware.{Packet}
use netns_mcast_relay.Relay.{Instance}
use netns_mcast_relay.Relay.System.Health.{IsHealthy, NoEcho, visit-IsHealthy}
use netns_mcast_relay.Relay.Broadcast.{visit}
use netns_mcast_relay.Relay.Concurrent.{Runner, launch, cancel_runner, cancel_all, visited, unqueue}

module _ {S : Type 0} where
  -- What the receivers hold came from their namespace.
  abbrev pub Holds : Text → List (S × Option Packet) → Type 0
  Holds path [] = Unit
  Holds path ((sock, none) ∷ rs) = Holds path rs
  Holds path ((sock, some pkt) ∷ rs) = (pkt.source_path ≡ path) × Holds path rs

  pub Holds-append :
      (path : Text) (xs ys : List (S × Option Packet))
      → Holds path xs
      → Holds path ys
      → Holds path (xs ++ ys)
  Holds-append path [] ys h k = k
  Holds-append path ((sock, none) ∷ rs) ys h k = Holds-append path rs ys h k
  Holds-append path ((sock, some pkt) ∷ rs) ys h k = (h.0, Holds-append path rs ys h.1 k)

  pub Holds-split :
      (path : Text) (xs ys : List (S × Option Packet))
      → Holds path (xs ++ ys)
      → Holds path xs × Holds path ys
  Holds-split path [] ys h = (tt, h)
  Holds-split path ((sock, none) ∷ rs) ys h = Holds-split path rs ys h
  Holds-split path ((sock, some pkt) ∷ rs) ys h =
      let (a, b) = Holds-split path rs ys h.1 in ((h.0, a), b)

  pub Holds-tail :
      (path : Text) (sock : S) (held : Option Packet) (rs : List (S × Option Packet))
      → Holds path ((sock, held) ∷ rs)
      → Holds path rs
  Holds-tail path sock none rs h = h
  Holds-tail path sock (some pkt) rs h = h.1

  Holds-launch : (path : Text) (socks : List S) → Holds path (map (λ s. (s, none)) socks)
  Holds-launch path [] = tt
  Holds-launch path (s ∷ ss) = Holds-launch path ss

  middle-empty :
      (before after : List (S × Option Packet)) (x : S × Option Packet)
      → (before ++ x ∷ after ≡ [])
      → ⊥
  middle-empty [] after x h = cc
  middle-empty (b ∷ before) after x h = cc

module _ {H S : Type 0} where
  -- The queue of an instance is within capacity and holds no packet of its own namespace; its
  -- receivers hold packets of its own namespace only; and once its handle is closed, none of its
  -- goroutines runs.
  pub record IsSound (r : Runner H S) : Type 0 where
    pub healthy : IsHealthy r.inst.path r.inst
    pub own : Holds r.inst.path r.receivers
    pub no_receiver : r.closed ≡ true → r.receivers ≡ []
    pub no_worker : r.closed ≡ true → r.worker ≡ false

  abbrev pub AllSound : Map ℕ (Runner H S) → Type 0
  AllSound heap = AllEntries (λ id r. IsSound r) heap

  pub launch-IsSound :
      (done : Bool) (path : Text) (inst : Instance H S)
      → IsHealthy path inst
      → IsSound (launch done inst)
  launch-IsSound done path inst h =
      let named : path ≡ inst.path = sym h.named in
      record {
        healthy = record {
          named = refl;
          bounded = h.bounded;
          no_echo = subst (λ p. NoEcho p inst.send_ch) named h.no_echo;
        };
        own = Holds-launch inst.path inst.sockets;
        no_receiver = λ e. cc;
        no_worker = λ e. cc;
      }

  pub cancel_runner-IsSound : (r : Runner H S) → IsSound r → IsSound (cancel_runner r)
  cancel_runner-IsSound r i = record {
    healthy = record { named = refl; bounded = i.healthy.bounded; no_echo = i.healthy.no_echo };
    own = i.own;
    no_receiver = i.no_receiver;
    no_worker = i.no_worker;
  }

  pub cancel_all-AllSound : (heap : Map ℕ (Runner H S)) → AllSound heap → AllSound (cancel_all heap)
  unfolding cancel_all
  cancel_all-AllSound [] a = tt
  cancel_all-AllSound ((id, r) ∷ heap) a =
      (cancel_runner-IsSound r a.0, cancel_all-AllSound heap a.1)

  pub visit-path :
      (pkt : Packet) (path : Text) (inst : Instance H S) → (visit pkt path inst).path ≡ inst.path
  visit-path pkt path inst = ground arith

  pub visit-cancelled :
      (pkt : Packet) (path : Text) (inst : Instance H S)
      → inst.cancelled ≡ true
      → (visit pkt path inst).cancelled ≡ true
  visit-cancelled pkt path inst h = ground arith

  pub visited-IsSound :
      (pkt : Packet) (path : Text) (r : Runner H S)
      → r.inst.path ≡ path
      → IsSound r
      → IsSound (visited pkt path r)
  visited-IsSound pkt path r e i =
      let same = visit-path pkt path r.inst in
      record {
        healthy =
            subst (λ p. IsHealthy p (visit pkt path r.inst)) (sym (same ∙ e))
              (visit-IsHealthy pkt path r.inst (subst (λ p. IsHealthy p r.inst) e i.healthy));
        own = subst (λ p. Holds p r.receivers) (sym same) i.own;
        no_receiver = i.no_receiver;
        no_worker = i.no_worker;
      }

  pub unqueue-IsSound :
      (pkt : Packet) (rest : List Packet) (r : Runner H S)
      → r.inst.send_ch ≡ pkt ∷ rest
      → IsSound r
      → IsSound (unqueue rest r)
  unqueue-IsSound pkt rest r e i = record {
    healthy = record {
      named = refl;
      bounded = omega (arith, ap length e, i.healthy.bounded);
      no_echo = (subst (NoEcho r.inst.path) e i.healthy.no_echo).1;
    };
    own = i.own;
    no_receiver = i.no_receiver;
    no_worker = i.no_worker;
  }

  -- A receiver, in its place among the others, takes a step or ends.
  pub receivers-IsSound :
      (r : Runner H S) (before after changed : List (S × Option Packet)) (x : S × Option Packet)
      → r.receivers ≡ before ++ x ∷ after
      → (Holds r.inst.path before → Holds r.inst.path after → Holds r.inst.path changed)
      → IsSound r
      → IsSound (record r { receivers = changed })
  receivers-IsSound r before after changed (sock, held) e h i =
      let (a, b) =
        Holds-split r.inst.path before ((sock, held) ∷ after) (subst (Holds r.inst.path) e i.own) in
      record {
        healthy = i.healthy;
        own = h a (Holds-tail r.inst.path sock held after b);
        no_receiver =
            λ c. absurd (middle-empty before after (sock, held) (sym e ∙ i.no_receiver c));
        no_worker = i.no_worker;
      }
