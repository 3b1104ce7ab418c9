-- ===== src/Fsm/Machine/Hooks.antt =====
-- The hooks of internal/fsm/hooks.go.
pub mod Steady
use homelab_autoscaler.Prelude.{ℕ, String, Bool, true, false, none, some, if◌then◌else◌}
use homelab_autoscaler.Action.{Act, pure, attempt, ◌>>=◌, ◌>>◌}
use homelab_autoscaler.Api.{Progress, shutting_down, shutdown, starting_up, ready, is_ready}
use homelab_autoscaler.Api.Text.{Texts}
use homelab_autoscaler.Api.Client.{Client, time_now}
use homelab_autoscaler.Fsm.Events.{
  State, Event, start_node, shutdown_node, job_completed, job_failed, force_cleanup,
  operation_scale_up, operation_scale_down,
}
use homelab_autoscaler.Fsm.Coordination.{default_lock_timeout}
use homelab_autoscaler.Fsm.Coordination.Interface.{new_coordination_manager}
use homelab_autoscaler.Fsm.KubeNodes.{set_node_schedulable_with_retry}
use homelab_autoscaler.Fsm.Machine.{
  max_retries, Sys, call, modify, get_machine, update_node_progress, add_node_condition,
}
use homelab_autoscaler.Fsm.Machine.Engine.{Callbacks}

-- `owner` is the coordination manager's, and `fuel` bounds the rounds of the uncordon.
module _ {W : Type 0} (c : Client W) (t : Texts) (owner : String) (fuel : ℕ) where
  unfoldable pub before_start_node : Act (Sys W) Unit
  before_start_node = do
    nm ← get_machine
    call (
        (new_coordination_manager c t owner).acquire_lock nm.node operation_scale_up
          default_lock_timeout)

  unfoldable pub before_shutdown_node : Act (Sys W) Unit
  before_shutdown_node = do
    nm ← get_machine
    call (
        (new_coordination_manager c t owner).acquire_lock nm.node operation_scale_down
          default_lock_timeout)

  condition_now : String → Bool → String → Act (Sys W) Unit
  condition_now kind held reason = do
    now ← call (time_now c)
    add_node_condition c
        (record { kind = kind; status = held; last_transition_time = now; reason = reason })

  uncordon_if_ready : State → Act (Sys W) Unit
  uncordon_if_ready dst =
      if is_ready dst
      then (do
        nm ← get_machine
        attempt (
            call (
              set_node_schedulable_with_retry c fuel nm.node.spec.kubernetes_node_name
                nm.uncordon_timeout))
        pure tt)
      else pure tt

  release_own : Act (Sys W) Unit
  release_own = do
    nm ← get_machine
    attempt (call ((new_coordination_manager c t owner).release_lock nm.node))
    pure tt

  unfoldable pub after_job_completed : State → Act (Sys W) Unit
  unfolding uncordon_if_ready release_own
  after_job_completed dst = do uncordon_if_ready dst; release_own; update_node_progress c dst

  unfoldable pub after_job_failed : State → Act (Sys W) Unit
  unfolding release_own condition_now
  after_job_failed dst = do
    release_own
    update_node_progress c dst
    condition_now "JobFailed" true "AsyncJobFailed"

  force_release : Act (Sys W) Unit
  force_release = do
    nm ← get_machine
    attempt (call ((new_coordination_manager c t owner).force_release_lock nm.node))
    pure tt

  unfoldable pub after_force_cleanup : State → Act (Sys W) Unit
  unfolding condition_now force_release
  after_force_cleanup dst = do
    force_release
    update_node_progress c dst
    condition_now "ForceCleanup" true "StuckTransitionCleanup"

  -- `nm.backoff = &BackoffStrategy{…}`
  reset_backoff : Act (Sys W) Unit
  reset_backoff = do
    now ← call (time_now c)
    modify λ nm. record nm {
      backoff =
          some (record { transition_start = now; retry_count = 0; max_retries = max_retries });
    }

  clear_backoff : Act (Sys W) Unit
  clear_backoff = modify (λ nm. record nm { backoff = none })

  unfoldable pub enter_starting_up : Act (Sys W) Unit
  unfolding reset_backoff condition_now
  enter_starting_up = do
    reset_backoff
    update_node_progress c starting_up
    condition_now "StartupProgressing" true "NodeStarting"

  unfoldable pub enter_shutting_down : Act (Sys W) Unit
  unfolding reset_backoff condition_now
  enter_shutting_down = do
    reset_backoff
    update_node_progress c shutting_down
    condition_now "ShutdownProgressing" true "NodeShuttingDown"

  unfoldable pub enter_ready : Act (Sys W) Unit
  unfolding clear_backoff condition_now
  enter_ready = do
    clear_backoff
    update_node_progress c ready
    condition_now "Ready" true "NodeReady"

  unfoldable pub enter_shutdown : Act (Sys W) Unit
  unfolding clear_backoff condition_now
  enter_shutdown = do
    clear_backoff
    update_node_progress c shutdown
    condition_now "Shutdown" false "NodeShutdown"

  unfoldable pub before_event : Event → Act (Sys W) Unit
  before_event start_node = before_start_node
  before_event shutdown_node = before_shutdown_node
  before_event _ = pure tt

  unfoldable pub enter_state : State → Act (Sys W) Unit
  enter_state starting_up = enter_starting_up
  enter_state shutting_down = enter_shutting_down
  enter_state ready = enter_ready
  enter_state shutdown = enter_shutdown
  enter_state (Progress.unnamed _) = pure tt

  unfoldable pub after_event : Event → State → Act (Sys W) Unit
  after_event job_completed dst = after_job_completed dst
  after_event job_failed dst = after_job_failed dst
  after_event force_cleanup dst = after_force_cleanup dst
  after_event _ dst = pure tt

  abbrev pub get_fsm_callbacks : Callbacks (Sys W)
  get_fsm_callbacks = record { before = before_event; enter = enter_state; after = after_event }
