-- ===== src/Netns/Do/Tests.antt =====
-- Do at a concrete system: a state is the thread's namespace and the count of open handles, and
-- handle 9 cannot be entered.
use netns_mcast_relay.Base.{
  ℕ, ◌+◌, ◌-◌, ◌≡◌, refl, true, false, Option, none, some, arith, ◌==◌, nat_eq, if◌then◌else◌,
}
use netns_mcast_relay.Netns.Do.{Namespaces, do_in}
use netns_mcast_relay.Netns.Do.Restored.{Thread, RanIn, do_in-RanIn}

abbrev os_thread : Namespaces (ℕ × ℕ) ℕ
os_thread = record {
  get_current = λ (here, handles). (some here, (here, handles + 1));
  set_namespace =
      λ n (here, handles). if n == 9 then (false, (here, handles)) else (true, (n, handles));
  close_handle = λ n (here, handles). (true, (here, handles - 1));
}

abbrev thread : Thread os_thread ℕ
thread = record {
  of_handle = λ n. n;
  namespace = λ w. w.0;
  got = λ w. refl;
  got_current = λ w n e. ground arith;
  was_set = λ n w e. ground arith;
  was_not_set = λ n w e. ground arith;
  handle_closed = λ n w. refl;
}

-- It tells where it ran, and wanders off.
abbrev wander : ℕ × ℕ → Option ℕ × (ℕ × ℕ)
wander (here, handles) = (some here, (5, handles))

do_runs : do_in os_thread 7 wander (1, 3) ≡ (some 7, (1, 3))
unfolding do_in
do_runs = refl

refused_runs : do_in os_thread 9 wander (1, 3) ≡ (none, (1, 3))
unfolding do_in
refused_runs = refl

do_in-RanIn_example : RanIn os_thread thread 7 wander 7 1 (do_in os_thread 7 wander (1, 3)).1
unfolding do_in
do_in-RanIn_example = do_in-RanIn os_thread thread 7 wander (1, 3) 7 refl
