-- ===== src/Netns/Do/Restored.antt =====
-- internal/netns/netns.go: where NSHandle.Do leaves the thread.
use mathlib.Core.Option.{none-ne-some}
use netns_mcast_relay.Base.{
  ◌≡◌, ◌∙◌, true, false, Option, some, arith, Option-cases, Bool-cases, inl, inr,
}
use netns_mcast_relay.Netns.Do.{Namespaces, finish, run_in, do_in}

-- What Do relies on: the namespace of the thread is the one that was set last, and a handle that Get
-- returns is of the namespace that the thread is in.
pub record Thread {W N : Type 0} (ns : Namespaces W N) (Net : Type 0) : Type 0 where
  pub of_handle : N → Net
  pub namespace : W → Net
  pub got : (w : W) → namespace (ns.get_current w).1 ≡ namespace w
  pub got_current : (w : W) (n : N) → (ns.get_current w).0 ≡ some n → of_handle n ≡ namespace w
  pub was_set :
      (n : N) (w : W)
      → (ns.set_namespace n w).0 ≡ true
      → namespace (ns.set_namespace n w).1 ≡ of_handle n
  pub was_not_set :
      (n : N) (w : W)
      → (ns.set_namespace n w).0 ≡ false
      → namespace (ns.set_namespace n w).1 ≡ namespace w
  pub handle_closed : (n : N) (w : W) → namespace (ns.close_handle n w).1 ≡ namespace w

module _ {W N Net : Type 0} (ns : Namespaces W N) (t : Thread ns Net) {A : Type 0} where
  open t use {namespace, of_handle}

  finish-namespace :
      (saved : N) (result : Option A) (w : W) (a : A)
      → (finish ns saved result w).0 ≡ some a
      → (result ≡ some a) × (namespace (finish ns saved result w).1 ≡ of_handle saved)
  finish-namespace saved result w a h =
      let w1 = (ns.set_namespace saved w).1 in
      elim (Bool-cases (ns.set_namespace saved w).0) [
        | inl restored ↦ (ground arith, t.handle_closed saved w1 ∙ t.was_set saved w restored)
        | inr lost ↦ ground arith
      ]

  -- What a run of the closure that succeeds comes to.
  abbrev pub RanIn : N → (W → Option A × W) → A → Net → W → Type 0
  RanIn target fn a home w' =
      ((w : W) × (namespace w ≡ of_handle target) × ((fn w).0 ≡ some a)) × (namespace w' ≡ home)

  run_in-RanIn :
      (target : N) (fn : W → Option A × W) (saved : N) (w : W) (a : A)
      → (run_in ns target fn saved w).0 ≡ some a
      → RanIn target fn a (of_handle saved) (run_in ns target fn saved w).1
  run_in-RanIn target fn saved w a h =
      let w1 = (ns.set_namespace target w).1 in
      elim (Bool-cases (ns.set_namespace target w).0) [
        | inl switched ↦
            let (ran, home) = finish-namespace saved (fn w1).0 (fn w1).1 a (rw switched at h) in
            rw switched ((w1, t.was_set target w switched, ran), home)
        | inr stayed ↦ absurd (none-ne-some a (rw stayed at h))
      ]

  -- If Do gives a result, it is what the closure gives when it is run in the target namespace, and
  -- afterwards the thread is back in the namespace that it came from, wherever the closure took it.
  pub do_in-RanIn :
      (target : N) (fn : W → Option A × W) (w : W) (a : A)
      → (do_in ns target fn w).0 ≡ some a
      → RanIn target fn a (namespace w) (do_in ns target fn w).1
  unfolding do_in
  do_in-RanIn target fn w a h =
      let w1 = (ns.get_current w).1 in
      elim (Option-cases (ns.get_current w).0) [
        | inl gone ↦ absurd (none-ne-some a (rw (gone, do_in) at h))
        | inr (saved, got) ↦
            rw (got, do_in)
              (let (ran, home) = run_in-RanIn target fn saved w1 a (rw (got, do_in) at h) in
                (ran, home ∙ t.got_current w saved got))
      ]
