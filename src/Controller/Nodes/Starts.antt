-- ===== src/Controller/Nodes/Starts.antt =====
-- What a reconciliation does with a node at rest that is to be started or shut down.
use homelab_autoscaler.Prelude.{ℕ, ◌≡◌, ◌⊎◌, [], ◌∷◌}
use homelab_autoscaler.Action.{Result, ok, err, Error}
use homelab_autoscaler.Api.{Job}
use homelab_autoscaler.Api.Text.{Texts}
use homelab_autoscaler.Api.Client.{Client}
use homelab_autoscaler.Fsm.Events.{State}
use homelab_autoscaler.Fsm.Coordination.{node_controller_owner}
use homelab_autoscaler.Fsm.Machine.{Sys, set_current}
use homelab_autoscaler.Fsm.Machine.Engine.{Engine, EngineLaws}
use homelab_autoscaler.Fsm.Machine.Hooks.{get_fsm_callbacks}
use homelab_autoscaler.Fsm.Operations.Settles.{state_of}

module _ {W : Type 0} (c : Client W) (t : Texts) (fuel : ℕ) (e : Engine (Sys W))
    (laws : EngineLaws e state_of set_current
      (get_fsm_callbacks c t node_controller_owner fuel)) where
  -- Either the machine is in `d` with its job recorded and the one monitor on that job, and nothing
  -- is to be requeued; or an error is returned.
  abbrev pub Driven : State → Result ℕ × Sys W → Type 0
  Driven d r =
      ((u : Sys W) × (job : Job) × (r ≡ (ok 0, u))
        × (state_of u ≡ d)
        × (u.machine.current_job ≡ job.name)
        × (u.monitors ≡ job.name ∷ []))
      ⊎ ((x : Error) × (u : Sys W) × (r ≡ (err x, u)))
