-- ===== src/Controller/Transitions.antt =====
-- The check before a transition (`validateStateTransition` of
-- internal/controller/infra/node_controller.go). A result is the time to requeue after; 0 asks for
-- no requeue. Log lines are left out.
pub mod Waits
use homelab_autoscaler.Prelude.{
  ℕ, ◌*◌, String, Bool, true, false, not, ◌||◌, Option, none, some, str_eq, if◌then◌else◌,
}
use homelab_autoscaler.Prelude.Int.{ℤ, pos, ltb_ℤ, sub_ℕ, ◌+ℤ◌}
use homelab_autoscaler.Action.{Act, pure, raise, failure, attempt, ◌>>=◌, ◌>>◌}
use homelab_autoscaler.Api.{
  Node, Progress, starting_up, shutting_down, is_on, is_off, is_empty, is_starting_up,
  is_shutting_down, second, minute,
}
use homelab_autoscaler.Api.Text.{Texts}
use homelab_autoscaler.Api.Client.{Client, time_now, context_over}
use homelab_autoscaler.Fsm.Coordination.{OperationLock, node_controller_owner}
use homelab_autoscaler.Controller.Cleanup.{
  check_operation_lock, is_lock_expired, force_release_lock,
}

-- The `switch` over the duration of the transition; none is its default, after 15 minutes.
unfoldable pub requeue_phase : ℤ → Option ℕ
requeue_phase elapsed =
    if not (ltb_ℤ (pos (2 * minute)) elapsed)
    then some (30 * second)
    else if not (ltb_ℤ (pos (10 * minute)) elapsed)
    then some (2 * minute)
    else if not (ltb_ℤ (pos (15 * minute)) elapsed)
    then some (5 * minute)
    else none

-- `time.Since(transitionStart)`, with the start a minute ago if the time stamp is missing.
abbrev pub elapsed_since : ℕ → Option ℕ → ℤ
elapsed_since now (some start) = sub_ℕ now start
elapsed_since now none = pos minute

abbrev pub transition_start_of : Node → Option ℕ
transition_start_of n =
    if is_starting_up n.status.progress
    then n.status.last_startup_time
    else if is_shutting_down n.status.progress
    then n.status.last_shutdown_time
    else none

module _ {W : Type 0} (c : Client W) (t : Texts) where
  -- Whether the lock of another controller is respected; an expired lock is removed.
  unfoldable pub respects_lock : Node → Option OperationLock → Act W Bool
  respects_lock node none = pure false
  respects_lock node (some lock) = do
    expired ← is_lock_expired c t (some lock)
    if expired
        then (attempt (force_release_lock c t node) >> pure false)
        else pure (not (str_eq lock.owner node_controller_owner))

  unfoldable pub release_stuck : Node → Option OperationLock → Act W Unit
  release_stuck node none = pure tt
  release_stuck node (some lock) = attempt (force_release_lock c t node) >> pure tt

  unfoldable pub requeue_or_release : Node → Option ℕ → Act W ℕ
  unfolding release_stuck
  requeue_or_release node (some d) = pure d
  requeue_or_release node none = do release_stuck node (check_operation_lock t node); pure 0

  unfoldable pub back_off : Node → Act W ℕ
  unfolding requeue_or_release requeue_phase
  back_off node = do
    now ← time_now c
    requeue_or_release node (requeue_phase (elapsed_since now (transition_start_of node)))

  unfoldable pub in_transition : Node → Act W ℕ
  unfolding back_off respects_lock
  in_transition node = do
    respected ← respects_lock node (check_operation_lock t node)
    if respected then pure (2 * minute) else back_off node

  unfoldable pub validate_state_transition : Node → Act W ℕ
  unfolding in_transition
  validate_state_transition node = do
    over ← context_over c
    if over
        then raise (failure "context canceled")
        else if is_empty node.spec.desired_power_state
        then raise (failure "node has empty DesiredPowerState")
        else if not (is_on node.spec.desired_power_state || is_off node.spec.desired_power_state)
        then raise (failure "node has invalid DesiredPowerState")
        else if is_starting_up node.status.progress || is_shutting_down node.status.progress
        then in_transition node
        else pure 0
