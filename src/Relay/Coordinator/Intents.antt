-- ===== src/Relay/Coordinator/Intents.antt =====
-- internal/relay/relay.go: what is pending after a sequence of commands.
use netns_mcast_relay.Base.{
  ℕ, ◌+◌, ◌≡◌, refl, Bool, true, Option, none, some, List, [], ◌∷◌, Text, text_eq, text_beq, lookup,
  lookup-insert, lookup-delete, arith, if◌then◌else◌,
}
use netns_mcast_relay.Relay.{debounce_window}
use netns_mcast_relay.Relay.Coordinator.{
  NsCmdType, ns_cmd_add, ns_cmd_remove, NsCmd, Pending, on_command,
}

-- The coordinator's variables after a sequence of commands, each with its time.
unfoldable pub on_commands : List (ℕ × NsCmd) → Pending → Pending
on_commands [] s = s
on_commands ((now, cmd) ∷ cs) s = on_commands cs (on_command now cmd s)

-- The last thing that was asked for a path.
unfoldable pub last_intent : Text → List (ℕ × NsCmd) → Option NsCmdType
last_intent p [] = none
last_intent p ((_, cmd) ∷ cs) = elim (last_intent p cs) [
  | some op ↦ some op
  | none ↦ if text_beq cmd.path p then some cmd.op else none
]

-- What a last intent leaves in the two sets, which held `old_add` and `old_del`.
abbrev pub IsPending :
    Option NsCmdType → Option Bool → Option Bool → Option Bool → Option Bool → Type 0
IsPending none old_add old_del add del = (add ≡ old_add) × (del ≡ old_del)
IsPending (some ns_cmd_add) old_add old_del add del = (add ≡ some true) × (del ≡ none)
IsPending (some ns_cmd_remove) old_add old_del add del = (add ≡ none) × (del ≡ some true)

command-IsPending :
    (now : ℕ) (op : NsCmdType) (path p : Text) (s : Pending)
    → let s' = on_command now (record { op = op; path = path }) s in
      IsPending
        (if text_beq path p then some op else none)
        (lookup p s.pending_add)
        (lookup p s.pending_del)
        (lookup p s'.pending_add)
        (lookup p s'.pending_del)
unfolding on_command
command-IsPending now ns_cmd_add path p s =
    ground (arith, lookup-insert path p true s.pending_add, lookup-delete path p s.pending_del)
command-IsPending now ns_cmd_remove path p s =
    ground (arith, lookup-insert path p true s.pending_del, lookup-delete path p s.pending_add)

-- After any commands each path stands in the set of its last intent alone; a path that no command
-- names stands where it stood.
pub on_commands-IsPending :
    (cs : List (ℕ × NsCmd)) (s : Pending) (p : Text)
    → IsPending
        (last_intent p cs)
        (lookup p s.pending_add)
        (lookup p s.pending_del)
        (lookup p (on_commands cs s).pending_add)
        (lookup p (on_commands cs s).pending_del)
unfolding on_commands last_intent
on_commands-IsPending [] s p = (refl, refl)
on_commands-IsPending ((now, cmd) ∷ cs) s p = ground (
  arith,
  on_commands-IsPending cs (on_command now cmd s) p,
  command-IsPending now cmd.op cmd.path p s,
)

-- The time of the last command.
unfoldable pub last_command : ℕ → List (ℕ × NsCmd) → ℕ
last_command t [] = t
last_command t ((now, _) ∷ cs) = last_command now cs

-- After a burst of commands the reconcile is due a whole window after the last one.
pub timer-on_commands :
    (now : ℕ) (cmd : NsCmd) (cs : List (ℕ × NsCmd)) (s : Pending)
    → (on_commands ((now, cmd) ∷ cs) s).timer ≡ some (last_command now cs + debounce_window)
unfolding on_commands last_command on_command
timer-on_commands now cmd [] s = refl
timer-on_commands now cmd ((later, next) ∷ cs) s =
    timer-on_commands later next cs (on_command now cmd s)
