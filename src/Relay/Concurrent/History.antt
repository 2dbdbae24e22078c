-- ===== src/Relay/Concurrent/History.antt =====
-- internal/relay/relay.go: the commands that the coordinator has taken since the last reconcile of a run.
use netns_mcast_relay.Relay.Concurrent.{addition_failed}
use netns_mcast_relay.Base.{
  ℕ, ◌≡◌, refl, ap, List, [], ◌∷◌, ◌++◌, Text, Bytes, insert, delete, text_eq, true,
}
use netns_mcast_relay.Net.{UdpAddr}
use netns_mcast_relay.Relay.{Platform}
use netns_mcast_relay.Relay.Coordinator.{
  NsCmd, NsCmdType, ns_cmd_add, ns_cmd_remove, Pending, idle, on_command,
}
use netns_mcast_relay.Relay.Coordinator.Intents.{on_commands}
use netns_mcast_relay.Relay.Concurrent.{
  State, start, Step, command, timer, publish, Reach, here, step,
}

-- The commands, oldest first, each with its time.
abbrev pub History : Type 0
History = List (ℕ × NsCmd)

-- The two sets of paths are those after these commands.
pub record Holds (s : Pending) (cs : History) : Type 0 where
  pub adds : s.pending_add ≡ (on_commands cs idle).pending_add
  pub dels : s.pending_del ≡ (on_commands cs idle).pending_del

on_commands-append :
    (cs : History) (now : ℕ) (cmd : NsCmd) (s : Pending)
    → on_commands (cs ++ (now, cmd) ∷ []) s ≡ on_command now cmd (on_commands cs s)
unfolding on_commands
on_commands-append [] now cmd s = refl
on_commands-append ((then_, first) ∷ cs) now cmd s =
    on_commands-append cs now cmd (on_command then_ first s)

on_command-Holds :
    (s : Pending) (cs : History) (now : ℕ) (op : NsCmdType) (path : Text)
    → Holds s cs
    → let cmd : NsCmd = record { op = op; path = path } in
      Holds (on_command now cmd s) (cs ++ (now, cmd) ∷ [])
unfolding on_command
on_command-Holds s cs now ns_cmd_add path h =
    let taken = on_commands-append cs now (record { op = ns_cmd_add; path = path }) idle in
    record {
      adds = rw taken (ap (insert path true) h.adds);
      dels = rw taken (ap (delete path) h.dels);
    }
on_command-Holds s cs now ns_cmd_remove path h =
    let taken = on_commands-append cs now (record { op = ns_cmd_remove; path = path }) idle in
    record {
      adds = rw taken (ap (delete path) h.adds);
      dels = rw taken (ap (insert path true) h.dels);
    }

module _ {W H S : Type 0} (md5 : Bytes → Bytes) (os : Platform W H S) (groups : List UdpAddr) where
  abbrev asked_after : {s t : State md5 os groups} → Step md5 os groups s t → History → History
  asked_after {s} (command cmd h) cs = cs ++ (s.clock, cmd) ∷ []
  asked_after (publish next h) cs = []
  asked_after _ cs = cs

  -- The commands of a run that no reconcile has answered yet.
  unfoldable pub asked : {s t : State md5 os groups} → Reach md5 os groups s t → History
  asked here = []
  asked (step before move) = asked_after move (asked before)

  abbrev pub failed_after :
      {s t : State md5 os groups} → Step md5 os groups s t → List Text → List Text
  failed_after (timer due h d le) fs = []
  failed_after (addition_failed p b ps left w h e f) fs = p ∷ fs
  failed_after _ fs = fs

  -- The paths that the last reconcile of a run has tried to build in vain; `fs` are those from before the
  -- run.
  unfoldable pub failed_from :
      {s t : State md5 os groups} → List Text → Reach md5 os groups s t → List Text
  failed_from fs here = fs
  failed_from fs (step before move) = failed_after move (failed_from fs before)

  abbrev pub failed : {s t : State md5 os groups} → Reach md5 os groups s t → List Text
  failed reach = failed_from [] reach

  -- Two runs, one after the other, are a run.
  pub joined :
      {s t u : State md5 os groups} (fs : List Text) (a : Reach md5 os groups s t)
      (b : Reach md5 os groups t u)
      → (c : Reach md5 os groups s u) × (failed_from fs c ≡ failed_from (failed_from fs a) b)
  unfolding failed_from
  joined fs a here = (a, refl)
  joined fs a (step b move) = let (c, e) = joined fs a b in (step c move, ap (failed_after move) e)

  Step-Holds :
      (s t : State md5 os groups) (cs : History) (move : Step md5 os groups s t)
      → Holds s.pending cs
      → Holds t.pending (asked_after move cs)
  unfolding idle on_commands
  Step-Holds s t cs (command cmd _) h = on_command-Holds s.pending cs s.clock cmd.op cmd.path h
  Step-Holds s t cs (timer due _ d le) h = record { adds = h.adds; dels = h.dels }
  Step-Holds s t cs (publish left _) h = record { adds = refl; dels = refl }
  Step-Holds s t cs _ h = h

  -- The two sets of paths are at any time those of the commands that no reconcile has answered yet.
  pub Reach-Holds :
      (w : W) (now : ℕ) (s : State md5 os groups)
      (reach : Reach md5 os groups (start md5 os groups w now) s)
      → Holds s.pending (asked reach)
  unfolding asked start on_commands
  Reach-Holds w now s here = record { adds = refl; dels = refl }
  Reach-Holds w now s (step {t} before move) =
      Step-Holds t s (asked before) move (Reach-Holds w now t before)
