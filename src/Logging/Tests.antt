-- ===== src/Logging/Tests.antt =====
-- DebugLazy of loggers that are numbers, enabled up to 4, with a list of the calls.
use netns_mcast_relay.Base.{ℕ, ◌≡◌, refl, none, some, List, [], ◌∷◌, leb}
use netns_mcast_relay.Logging.{debug_lazy}

abbrev note : ℕ → List ℕ → List ℕ
note logger calls = logger ∷ calls

enabled_calls : debug_lazy (λ l. leb l 4) (some 4) note [] ≡ 4 ∷ []
unfolding debug_lazy
enabled_calls = refl

disabled_is_quiet : debug_lazy (λ l. leb l 4) (some 5) note [] ≡ []
unfolding debug_lazy
disabled_is_quiet = refl

nil_is_quiet : debug_lazy (λ l. leb l 4) none note [] ≡ []
unfolding debug_lazy
nil_is_quiet = refl
