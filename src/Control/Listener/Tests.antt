-- ===== src/Control/Listener/Tests.antt =====
-- NewUnixServer at a small system: a state is the entries and the count of open listeners.
use netns_mcast_relay.Base.{
  ℕ, ◌+◌, ◌-◌, ◌≡◌, ◌≢◌, ◌⊎◌, refl, true, false, Option, none, some, [], ◌∷◌, Text, codes, ◌==◌,
  text_eq, nat_eq, text_beq_iff, arith, pos, Map, lookup, insert, delete, lookup-insert,
  lookup-delete, done, fails,
}
use netns_mcast_relay.Paths.{trim_space, clean}
use netns_mcast_relay.Control.Listener.{
  Stat, not_exist, found, Dial, connected, nobody, Host, server_closed, already_in_use,
  chmod_failed, new_unix_server, dir,
}
use netns_mcast_relay.Control.Listener.Files.{Entry, absent, plain, dead, alive, opened, Files}
use netns_mcast_relay.Control.Listener.Survival.{new_unix_server-alive}
use netns_mcast_relay.Control.Listener.Count.{Counted, new_unix_server-Counted}

abbrev World : Type 0
World = Map Text Entry × ℕ

abbrev entry_of : Option Entry → Entry
entry_of none = absent
entry_of (some e) = e

abbrev stat_of : Entry → Stat
stat_of absent = not_exist
stat_of plain = found false
stat_of dead = found true
stat_of alive = found true

abbrev dial_of : Entry → Dial
dial_of absent = nobody
dial_of plain = nobody
dial_of dead = nobody
dial_of alive = connected

-- Listening where something stands fails.
abbrev listen_at : Text → Entry → World → Option Text × World
listen_at p absent (m, n) = (some p, (insert p alive m, n + 1))
listen_at p _ w = (none, w)

-- The mode 0o777 cannot be set.
abbrev host : Host World Text
host = record {
  lookup_group = λ g. some (codes "7");
  stat = λ p w. stat_of (entry_of (lookup p w.0));
  dial = λ p w. (dial_of (entry_of (lookup p w.0)), w);
  close_probe = λ w. w;
  mkdir_all = λ p w. (true, w);
  remove = λ p w. (true, (delete p w.0, w.1));
  listen = λ p w. listen_at p (entry_of (lookup p w.0)) w;
  chown = λ p g w. (true, w);
  chmod = λ p m w. (m == 432, w);
  close_listener = λ l w. (delete l w.0, w.1 - 1);
  serve = λ l w. (server_closed, w);
}

abbrev at : World → Text → Entry
at w p = entry_of (lookup p w.0)

stat_socket :
    (p : Text) (w : World) → stat_of (at w p) ≡ found true → (at w p ≡ dead) ⊎ (at w p ≡ alive)
stat_socket p w h = ground arith

stat_absent : (e : Entry) → stat_of e ≡ not_exist → e ≡ absent
stat_absent e h = ground arith

dial_nobody : (e : Entry) → dial_of e ≡ nobody → e ≢ alive
dial_nobody e h = ground arith

entry_delete :
    (p q : Text) (m : Map Text Entry) (n k : ℕ) → p ≢ q → at (delete p m, n) q ≡ at (m, k) q
entry_delete p q m n k other = ground (arith, lookup-delete p q m, text_beq_iff p q)

entry_listen : (p q : Text) (e : Entry) (w : World) → p ≢ q → at (listen_at p e w).1 q ≡ at w q
entry_listen p q absent (m, n) other = ground (arith, lookup-insert p q alive m, text_beq_iff p q)
entry_listen p q plain w other = refl
entry_listen p q dead w other = refl
entry_listen p q alive w other = refl

path_listen : (p : Text) (e : Entry) (w : World) (l : Text) → (listen_at p e w).0 ≡ some l → l ≡ p
path_listen p absent w l h = ground arith
path_listen p plain w l h = cc
path_listen p dead w l h = cc
path_listen p alive w l h = cc

listeners_listen :
    (p : Text) (e : Entry) (w : World) → (listen_at p e w).1.1 ≡ w.1 + opened (listen_at p e w).0
listeners_listen p absent w = refl
listeners_listen p plain w = omega arith
listeners_listen p dead w = omega arith
listeners_listen p alive w = omega arith

abbrev files : Files host
files = record {
  entry = at;
  listeners = λ w. w.1;
  path_of = λ l. l;
  stat_absent = λ p w. stat_absent (at w p);
  stat_socket = stat_socket;
  dial_nobody = λ p w. dial_nobody (at w p);
  entry_dial = λ p q w. refl;
  entry_close_probe = λ q w. refl;
  entry_mkdir_all = λ p q w h. refl;
  entry_remove = λ p q w. entry_delete p q w.0 w.1 w.1;
  entry_listen = λ p q w. entry_listen p q (at w p) w;
  path_listen = λ p w l. path_listen p (at w p) w l;
  entry_chown = λ p q g w. refl;
  entry_chmod = λ p q m w. refl;
  entry_close = λ l q w. entry_delete l q w.0 (w.1 - 1) w.1;
  listeners_dial = λ p w. refl;
  listeners_close_probe = λ w. refl;
  listeners_mkdir_all = λ p w. refl;
  listeners_remove = λ p w. refl;
  listeners_listen = λ p w. listeners_listen p (at w p) w;
  listeners_chown = λ p g w. refl;
  listeners_chmod = λ p m w. refl;
  listeners_close = λ l w h. omega arith;
}

abbrev socket : Text
socket = codes "/run/relay.sock"

abbrev other : Text
other = codes "/run/other.sock"

abbrev crowded : World
crowded = ((socket, dead) ∷ (other, alive) ∷ [], 4)

start_runs : (new_unix_server host socket (pos 1) 432 [] crowded).0 ≡ done socket
unfolding new_unix_server trim_space clean dir lookup delete
start_runs = refl

in_use_runs : (new_unix_server host other (pos 1) 432 [] crowded).0 ≡ fails already_in_use
unfolding new_unix_server trim_space clean dir lookup
in_use_runs = refl

chmod_runs : (new_unix_server host socket (pos 1) 511 [] crowded).0 ≡ fails chmod_failed
unfolding new_unix_server trim_space clean dir lookup delete
chmod_runs = refl

new_unix_server-alive_example :
    files.entry (new_unix_server host socket (pos 1) 432 [] crowded).1 other ≡ alive
unfolding lookup
new_unix_server-alive_example =
    new_unix_server-alive host files socket (pos 1) 432 [] other crowded refl

new_unix_server-Counted_example :
    Counted host files 4 (new_unix_server host socket (pos 1) 511 [] crowded)
new_unix_server-Counted_example = new_unix_server-Counted host files socket (pos 1) 511 [] crowded
