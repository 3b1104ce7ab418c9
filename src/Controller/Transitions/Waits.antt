-- ===== src/Controller/Transitions/Waits.antt =====
-- How long the node controller waits in the middle of a transition.
use homelab_autoscaler.Prelude.{◌≡◌, arith}
use homelab_autoscaler.Prelude.Int.{ℤ}
use homelab_autoscaler.Fsm.Operations.{backoff_phase}
use homelab_autoscaler.Controller.Transitions.{requeue_phase}

-- The node controller and the state machine, each with a `switch` of its own, give the same interval
-- at every age of a transition, negative ones included, and agree on the ages at which there is none
-- any more.
pub phases_agree : (elapsed : ℤ) → requeue_phase elapsed ≡ backoff_phase elapsed
unfolding requeue_phase backoff_phase
phases_agree elapsed = ground arith
