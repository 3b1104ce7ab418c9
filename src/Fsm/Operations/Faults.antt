-- ===== src/Fsm/Operations/Faults.antt =====
-- What two paths of internal/fsm/node_state_machine.go leave behind: the end of the job timeout, and
-- a shutdown that finds the lock held.
use homelab_autoscaler.Prelude.{ℕ, String, ◌≡◌, refl, false, some, ap, sym, ◌∙◌}
use homelab_autoscaler.Action.{Result, ok, err, failure, wrapped}
use homelab_autoscaler.Api.{ready, shutting_down}
use homelab_autoscaler.Api.Text.{Texts}
use homelab_autoscaler.Api.Client.{Client, time_now}
use homelab_autoscaler.Fsm.Events.{
  State, shutdown_node, job_timeout, get_destination_state, operation_scale_down,
}
use homelab_autoscaler.Fsm.Coordination.{
  OperationLock, check_lock, is_expired_at, default_lock_timeout,
}
use homelab_autoscaler.Fsm.Coordination.Managers.{acquire_lock_held}
use homelab_autoscaler.Fsm.Jobs.{cleanup_pending_jobs}
use homelab_autoscaler.Fsm.KubeNodes.{set_node_unschedulable}
use homelab_autoscaler.Fsm.Machine.{Sys, set_current}
use homelab_autoscaler.Fsm.Machine.Engine.{Engine, EngineLaws}
use homelab_autoscaler.Fsm.Machine.Hooks.{
  before_event, before_shutdown_node, enter_state, after_event, get_fsm_callbacks,
}
use homelab_autoscaler.Fsm.Machine.Hooks.Steady.{enter_backoff}
use homelab_autoscaler.Fsm.Operations.{fire, shutdown_node_op, shutdown_from_event}
use homelab_autoscaler.Fsm.Operations.Settles.{state_of, destination_named}

module _ {W : Type 0} (c : Client W) (t : Texts) (owner : String) (fuel : ℕ) (e : Engine (Sys W))
    (laws : EngineLaws e state_of set_current (get_fsm_callbacks c t owner fuel)) where
  -- A timeout of the job does nothing but enter the destination: with an engine that behaves as
  -- documented, `JobTimeout` runs the entry hook of that state and no other hook. (So the lock of
  -- the operation is not released, and a node that a shutdown cordoned is not made schedulable.)
  pub timeout_only_enters :
      (s : Sys W) (d : State)
      → get_destination_state (state_of s) job_timeout ≡ some d
      → fire c t owner fuel e job_timeout s ≡ enter_state c t owner fuel d (set_current d s)
  unfolding before_event after_event
  timeout_only_enters s d h =
      let (s2, entered, _, _) =
        enter_backoff c t owner fuel d (set_current d s)
          (destination_named c t owner fuel e laws (state_of s) d job_timeout h) in
      laws.done job_timeout d s s s2 s2 h refl entered refl ∙ sym entered

  -- A shutdown that finds the lock held leaves the machine of the cluster cordoned: with an engine that
  -- behaves as documented, if the node is ready and shows a lock that is not expired, `ShutdownNode`
  -- fails, and after it has deleted the pending jobs and has made the Kubernetes node unschedulable
  -- the clock is all that it has asked for.
  pub held_shutdown_cordons :
      (s : Sys W) (lock : OperationLock) (now : ℕ) (v : W)
      → state_of s ≡ ready
      → check_lock t s.machine.node ≡ some lock
      → time_now c
          (set_node_unschedulable c s.machine.node.spec.kubernetes_node_name
            (cleanup_pending_jobs c t s.machine.node s.machine.node.spec.kubernetes_node_name
              s.world).1).1
        ≡ (ok now, v)
      → is_expired_at now lock ≡ false
      → shutdown_node_op c t owner fuel e s ≡ (
        err (
            wrapped "FSM transition failed"
              (wrapped "transition canceled" (failure "coordination lock already exists"))),
        record s { world = v },
      )
  unfolding shutdown_node_op shutdown_from_event before_event before_shutdown_node
      get_destination_state
  held_shutdown_cordons s lock now v at found clock live =
      let cordoned : W =
        (set_node_unschedulable c s.machine.node.spec.kubernetes_node_name
          (cleanup_pending_jobs c t s.machine.node s.machine.node.spec.kubernetes_node_name
            s.world).1).1 in
      let held =
        acquire_lock_held c t owner s.machine.node operation_scale_down default_lock_timeout
          cordoned v lock now found clock live in
      let refused =
        laws.cancelled shutdown_node shutting_down (record s { world = cordoned })
          (record s { world = v }) (failure "coordination lock already exists")
          (ap (λ (x : State). get_destination_state x shutdown_node) at)
          (ap (λ (r : Result Unit × W). (r.0, record s { world = r.1 })) held) in
      rw refused refl
