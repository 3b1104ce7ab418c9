-- ===== src/Controller/Status.antt =====
-- The controller of the Kubernetes nodes (internal/controller/core/node_controller.go), which keeps
-- the power state of a Node resource true to its Kubernetes node, and the group controller
-- (internal/controller/infra/group_controller.go). An error stops either, with nothing to requeue that
-- the caller reads.
pub mod Synced
pub mod Settles
use homelab_autoscaler.Prelude.{
  String, Bool, true, false, not, ◌&&◌, ◌||◌, Option, none, some, List, [], ◌∷◌, str_eq,
  if◌then◌else◌,
}
use homelab_autoscaler.Prelude.Lists.{exists_in}
use homelab_autoscaler.Action.{
  Act, Result, ok, err, pure, raise, is_not_found, attempt, ◌>>=◌, ◌>>◌,
}
use homelab_autoscaler.Api.{
  Node, Key, Group, KubeNode, KubeCondition, PowerState, on, off, Progress, shutdown, ready,
  same_power, is_starting_up, is_shutting_down,
}
use homelab_autoscaler.Api.Maps.{StringMap, lookup}
use homelab_autoscaler.Api.Client.{Client, time_now}

abbrev is_up : KubeCondition → Bool
is_up k = str_eq k.kind "Ready" && k.status

unfoldable pub get_node_status : KubeNode → PowerState
get_node_status k = if exists_in is_up k.conditions then on else off

abbrev pub rest_progress : PowerState → Progress → Progress
rest_progress off p = shutdown
rest_progress on p = ready
rest_progress (PowerState.unnamed _) p = p

-- The copy of the Node resource that is stored.
unfoldable pub synced : Node → PowerState → Node
synced node power = record node {
  status = record node.status {
    power_state = power;
    progress =
        if is_starting_up node.status.progress || is_shutting_down node.status.progress
        then node.status.progress
        else rest_progress power node.status.progress;
  };
}

-- A nil map reads as an empty one.
abbrev pub or_no_labels : Option StringMap → StringMap
or_no_labels none = []
or_no_labels (some m) = m

module _ {W : Type 0} (c : Client W) (namespace : String) where
  unfoldable pub sync_node : KubeNode → Result Node → Act W Unit
  unfolding synced get_node_status
  sync_node k (err x) = if is_not_found x then pure tt else raise x
  sync_node k (ok node) =
      if same_power node.status.power_state (get_node_status k)
      then pure tt
      else do c.update_node_status (synced node (get_node_status k)); pure tt

  sync_labelled : KubeNode → Option String → Act W Unit
  unfolding sync_node
  sync_labelled k none = pure tt
  sync_labelled k (some name) = do
    node ← attempt (c.get_node (record { name = name; namespace = namespace }))
    sync_node k node

  sync_found : Result KubeNode → Act W Unit
  unfolding sync_labelled
  sync_found (err x) = if is_not_found x then pure tt else raise x
  sync_found (ok k) = sync_labelled k (lookup (or_no_labels k.labels) "infra.homecluster.dev/node")

  unfoldable pub reconcile_kube_node : String → Act W Unit
  unfolding sync_found
  reconcile_kube_node name = do k ← attempt (c.get_kube_node name); sync_found k

module _ {W : Type 0} (c : Client W) where
  unfoldable pub reconcile_group : Key → Act W Unit
  reconcile_group request = do
    group ← c.get_group request
    now ← time_now c
    c.update_group_status (record group {
      conditions =
          (record {
            kind = "Loaded";
            status = true;
            last_transition_time = now;
            reason = "GroupLoaded";
          })
          ∷ [];
    })
    pure tt
