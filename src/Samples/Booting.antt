-- ===== src/Samples/Booting.antt =====
-- Runs of the entry point with a controller runtime that sets everything up.
use homelab_autoscaler.Prelude.{ℕ, String, ◌≡◌, refl}
use homelab_autoscaler.Action.{Result, ok}
use homelab_autoscaler.Grpc.Manager.{Host, waiting, start}
use homelab_autoscaler.Grpc.Manager.Steps.{Steps, initial}
use homelab_autoscaler.Grpc.Manager.Lifecycle.{Stopped}
use homelab_autoscaler.Entry.{Runtime, set_up, main}
use homelab_autoscaler.Entry.Ends.{main_stops}
use homelab_autoscaler.Entry.Options.{default_flags, webhooks_enabled}
use homelab_autoscaler.Samples.Hosting.{Wire, fresh, net, net_laws, port}

abbrev runtime : Result (Unit {0}) → Runtime Wire String
runtime end = record {
  new_manager = λ _ w. (ok "manager", w);
  index_field = λ _ _ w. (ok tt, w);
  complete = λ _ _ w. (ok tt, w);
  complete_webhook = λ _ w. (ok tt, w);
  add_healthz_check = λ _ _ w. (ok tt, w);
  add_readyz_check = λ _ _ w. (ok tt, w);
  start_manager = λ _ w. (end, w);
}

abbrev ended : Host Wire ℕ String
ended = (main (runtime (ok tt)) net default_flags "" (initial net "" fresh)).1

main_stops_example :
    (ended.caller ≡ waiting) × ((v : Host Wire ℕ String) × Steps net ended v × Stopped net port v)
unfolding main start set_up default_flags webhooks_enabled
main_stops_example =
    main_stops net (runtime (ok tt)) default_flags "" net_laws "" fresh ended refl refl
