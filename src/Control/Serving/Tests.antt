-- ===== src/Control/Serving/Tests.antt =====
-- A context that ends while two requests are in progress.
use netns_mcast_relay.Base.{◌≡◌}
use netns_mcast_relay.Control.Listener.{server_closed}
use netns_mcast_relay.Control.Serving.{call_shutdown, serve_closed, after_serve, Reach-returned}
use netns_mcast_relay.Base.{true, refl}
use netns_mcast_relay.Control.Serving.{
  Serving, serving, end_context, request, Reach, here, next, ReturnsEarly, returned_early,
}

abbrev busy : Serving
busy = record serving { context_done = true; requests = 2 }

busy-Reach : Reach serving busy
unfolding serving
busy-Reach =
    next {t = record serving { requests = 2 }}
      (next {t = record serving { requests = 1 }} (next here (request refl refl))
        (request refl refl))
      end_context

early_runs : ReturnsEarly busy
unfolding serving
early_runs = returned_early busy refl refl refl

abbrev over : Serving
over = after_serve server_closed true (record busy { shutting_down = true })

over-Reach : Reach serving over
unfolding serving after_serve
over-Reach =
    next {t = record busy { shutting_down = true }} (next busy-Reach (call_shutdown refl refl))
      (serve_closed true refl refl)

Reach-returned_example : over.context_done ≡ true
unfolding after_serve
Reach-returned_example = Reach-returned over over-Reach refl
