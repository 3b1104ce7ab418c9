-- ===== src/Controller/Nodes.antt =====
-- The node controller (internal/controller/infra/node_controller.go): its reconciliation, which
-- starts or shuts down the node through the state machine. A result is the time to requeue after; 0
-- asks for no requeue. The jobs' monitors (`go …`) run apart from it, and log lines are left out.
pub mod Starts
pub mod Stuck
pub mod Requests
use Prim.Native.String.{◌++◌ as text_append}
use homelab_autoscaler.Prelude.{
  ℕ, ◌*◌, String, Bool, true, false, not, ◌&&◌, ◌||◌, Option, none, some, List, [], ◌∷◌, str_eq,
  if◌then◌else◌, is_some, ltb,
}
use homelab_autoscaler.Prelude.Lists.{exists_in}
use homelab_autoscaler.Action.{
  Act, Result, ok, err, pure, raise, failure, is_not_found, attempt, ◌>>=◌, ◌>>◌,
}
use homelab_autoscaler.Api.{
  Node, Key, Group, KubeNode, OwnerReference, is_on, is_off, is_empty, second, minute,
}
use homelab_autoscaler.Api.Maps.{lookup, value_of, set}
use homelab_autoscaler.Api.Text.{Texts}
use homelab_autoscaler.Api.Client.{Client}
use homelab_autoscaler.Fsm.Events.{start_node, shutdown_node, is_transitional_state}
use homelab_autoscaler.Fsm.Coordination.{node_controller_owner, or_new_map}
use homelab_autoscaler.Fsm.Machine.{Machine, Sys, new_node_state_machine, get_machine}
use homelab_autoscaler.Fsm.Machine.Engine.{Engine}
use homelab_autoscaler.Fsm.Operations.{
  can_transition, start_node_op, shutdown_node_op, calculate_backoff, check_stuck_state,
}
use homelab_autoscaler.Controller.Cleanup.{cleanup_expired_locks}
use homelab_autoscaler.Controller.Transitions.{validate_state_transition}

module _ {W : Type 0} (c : Client W) where
  unfoldable pub add_label : String → String → String → Act W Unit
  add_label node_name key value = do
    k ← c.get_kube_node node_name
    c.patch_kube_node k (record k { labels = some (set (or_new_map k.labels) key value) })
    pure tt

  unfoldable pub set_provider_id : Node → Act W Unit
  set_provider_id node = do
    k ← c.get_kube_node node.spec.kubernetes_node_name
    if not (str_eq k.provider_id "") then pure tt else do
      c.patch_kube_node k (record k { provider_id = text_append "homelab://" node.name })
      pure tt

  -- The two labels on the Kubernetes node; errors are only logged.
  unfoldable pub add_labels : Node → Act W Unit
  unfolding add_label
  add_labels node =
      let group = value_of node.labels "group" in
      if not (str_eq group "")
        && not (str_eq (value_of node.labels "infra.homecluster.dev/group") group)
      then (do
        attempt (add_label node.spec.kubernetes_node_name "infra.homecluster.dev/group" group)
        attempt (add_label node.spec.kubernetes_node_name "infra.homecluster.dev/node" node.name)
        pure tt)
      else pure tt

  is_reference_to : Group → OwnerReference → Bool
  is_reference_to group r =
      str_eq r.uid group.uid
      && str_eq r.kind "Group"
      && str_eq r.api_version "infra.homecluster.dev/v1alpha1"

  -- `controllerutil.SetControllerReference` is the parameter `set_reference`.
  unfoldable pub set_controller_reference : (Group → Node → Result Node) → Node → Group → Act W Node
  unfolding is_reference_to
  set_controller_reference set_reference node group =
      if exists_in (is_reference_to group) node.owner_references
      then pure node
      else do referring ← λ w. (set_reference group node, w); c.update_node referring

module _ {W : Type 0} (c : Client W) (t : Texts) (fuel : ℕ) (e : Engine (Sys W)) where
  requeue_on_error : Result (Unit {0}) → Act (Sys W) ℕ
  requeue_on_error (ok _) = pure 0
  requeue_on_error (err x) = do calculate_backoff c t node_controller_owner fuel e; raise x

  unfoldable pub watch_transition : Act (Sys W) ℕ
  watch_transition = do
    check_stuck_state c t node_controller_owner fuel e
    nm ← get_machine
    if is_transitional_state nm.current
        then calculate_backoff c t node_controller_owner fuel e
        else pure (5 * minute)

  -- The three branches of `handleStateTransitionsWithFSM`.
  unfoldable pub drive : Node → Act (Sys W) ℕ
  unfolding watch_transition requeue_on_error
  drive node = do
    startable ← can_transition c t node_controller_owner fuel e start_node
    stoppable ← can_transition c t node_controller_owner fuel e shutdown_node
    if is_on node.spec.desired_power_state
          && (is_off node.status.power_state || is_empty node.status.power_state)
          && startable
        then (do
          started ← attempt (start_node_op c t node_controller_owner fuel e)
          requeue_on_error started)
        else if is_off node.spec.desired_power_state && is_on node.status.power_state && stoppable
        then (do
          stopped ← attempt (shutdown_node_op c t node_controller_owner fuel e)
          requeue_on_error stopped)
        else watch_transition

  -- The state machine that every reconciliation makes anew.
  abbrev pub fresh_system : Node → W → Sys W
  fresh_system node w = record { machine = new_node_state_machine node; monitors = []; world = w }

  abbrev leave : Result ℕ × Sys W → Result ℕ × W
  leave (r, s) = (r, s.world)

  unfoldable pub handle_state_transitions : Node → Act W ℕ
  unfolding drive
  handle_state_transitions node w = leave (drive node (fresh_system node w))

  unfoldable pub handle_node_deletion : Node → Act W ℕ
  handle_node_deletion node = pure 0

  unfoldable pub transit : Node → Act W ℕ
  transit node = do
    wait ← validate_state_transition c t node
    if ltb 0 wait then pure wait else handle_state_transitions node

  module _ (set_reference : Group → Node → Result Node) where
    own : Node → Result Group → Act W ℕ
    unfolding transit
    own node (err x) = if is_not_found x then pure (5 * second) else raise x
    own node (ok group) = do
      owned ← set_controller_reference c set_reference node group
      attempt (set_provider_id c owned)
      if is_some owned.deletion_timestamp then handle_node_deletion owned else transit owned

    join : Node → Option String → Act W ℕ
    unfolding own
    join node none = raise (failure "node has no group label, skipping")
    join node (some group_name) = do
      group ← attempt (c.get_group (record { name = group_name; namespace = node.namespace }))
      own node group

    unfoldable pub reconcile : Key → Act W ℕ
    unfolding join
    reconcile request = do
      attempt (cleanup_expired_locks c t)
      node ← c.get_node request
      add_labels c node
      join node (lookup node.labels "group")
