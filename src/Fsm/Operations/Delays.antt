-- ===== src/Fsm/Operations/Delays.antt =====
-- `CalculateBackoff` always gives a time to wait.
use homelab_autoscaler.Prelude.{ℕ, String, ◌≡◌, refl, Option, none, some}
use homelab_autoscaler.Action.{ok}
use homelab_autoscaler.Api.Text.{Texts}
use homelab_autoscaler.Api.Client.{Client, time_now}
use homelab_autoscaler.Fsm.Machine.{Sys, BackoffStrategy}
use homelab_autoscaler.Fsm.Machine.Engine.{Engine}
use homelab_autoscaler.Fsm.Operations.{cleanup_unless_phase, backoff_of, calculate_backoff}

module _ {W : Type 0} (c : Client W) (t : Texts) (owner : String) (fuel : ℕ)
    (e : Engine (Sys W)) where
  phase_answers :
      (o : Option ℕ) (s : Sys W)
      → (d : ℕ) × (u : Sys W) × (cleanup_unless_phase c t owner fuel e o s ≡ (ok d, u))
  unfolding cleanup_unless_phase
  phase_answers none s = (0, _, refl)
  phase_answers (some d) s = (d, s, refl)

  of_answers :
      (o : Option BackoffStrategy) (s : Sys W)
      → (d : ℕ) × (u : Sys W) × (backoff_of c t owner fuel e o s ≡ (ok d, u))
  unfolding backoff_of time_now
  of_answers none s = (_, s, refl)
  of_answers (some b) s = phase_answers _ _

  -- A time to wait is always computed, whether or not a cleanup is forced and whether it succeeds.
  pub calculate_answers :
      (s : Sys W) → (d : ℕ) × (u : Sys W) × (calculate_backoff c t owner fuel e s ≡ (ok d, u))
  unfolding calculate_backoff
  calculate_answers s = of_answers s.machine.backoff s
