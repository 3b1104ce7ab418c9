-- ===== src/Samples/Reconciling.antt =====
-- Runs of a reconciliation on the sample cluster, of nodes at rest and of one being deleted.
use homelab_autoscaler.Prelude.{ℕ, ◌≡◌, refl, some, ap}
use homelab_autoscaler.Action.{Result, ok}
use homelab_autoscaler.Api.{Node, key_of, ready, on, off}
use homelab_autoscaler.Controller.Nodes.{
  reconcile, add_labels, set_controller_reference, handle_node_deletion,
}
use homelab_autoscaler.Controller.Cleanup.{
  cleanup_expired_locks, cleanup_each, check_operation_lock,
}
use homelab_autoscaler.Api.Maps.{value_of}
use homelab_autoscaler.Prelude.Lists.{exists_in}
use homelab_autoscaler.Controller.Nodes.Requests.{Handled, reconcile-Handled}
use homelab_autoscaler.Samples.World.{Cluster, server, node_in, cluster_of}
use homelab_autoscaler.Samples.Words.{words}
use homelab_autoscaler.Samples.Machines.{looplab}

-- A node that is on and that is being deleted, in a group that has no hold of it yet.
abbrev leaving : Node
leaving = record (node_in off on ready) { deletion_timestamp = some 50_000_000_000 }

abbrev left_alone : Result ℕ × Cluster
left_alone = reconcile server words 50 looplab (λ _ n. ok n) (key_of leaving) (cluster_of leaving)

left_alone-ok : left_alone.0 ≡ ok 0
unfolding reconcile cleanup_expired_locks cleanup_each check_operation_lock add_labels value_of
    set_controller_reference exists_in handle_node_deletion
left_alone-ok = refl

reconcile-Handled_example :
    Handled server words 50 looplab
      (λ _ n. ok n)
      (key_of leaving)
      (cluster_of leaving)
      0
      left_alone.1
reconcile-Handled_example =
    reconcile-Handled server words 50 looplab (λ _ n. ok n) (key_of leaving) (cluster_of leaving) 0
      left_alone.1 (ap (λ (r : Result ℕ). (r, left_alone.1)) left_alone-ok)
