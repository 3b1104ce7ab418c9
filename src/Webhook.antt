-- ===== src/Webhook.antt =====
-- The admission of Node resources (internal/webhook/infra/v1alpha1/node_webhook.go).
pub mod Admission
use homelab_autoscaler.Prelude.{String, Option, none, some, if◌then◌else◌}
use homelab_autoscaler.Action.{
  Act, Result, ok, err, pure, raise, failure, wrapped, is_not_found, attempt, ◌>>=◌, ◌>>◌,
}
use homelab_autoscaler.Api.{Node, Group, KubeNode}
use homelab_autoscaler.Api.Maps.{lookup}
use homelab_autoscaler.Api.Client.{Client}

module _ {W : Type 0} (c : Client W) where
  judge_kube_node : Result KubeNode → Act W Unit
  judge_kube_node (ok k) = pure tt
  judge_kube_node (err e) =
      if is_not_found e
      then raise (failure "spec.kubernetesNodeName: kubernetes node does not exist in the cluster")
      else raise (wrapped "failed to verify kubernetes node existence" e)

  unfoldable pub validate_kubernetes_node : Node → Act W Unit
  unfolding judge_kube_node
  validate_kubernetes_node node = do
    found ← attempt (c.get_kube_node node.spec.kubernetes_node_name)
    judge_kube_node found

  judge_group : Result Group → Act W Unit
  judge_group (ok g) = pure tt
  judge_group (err e) =
      if is_not_found e
      then raise (failure "metadata.labels.group: Group does not exist in namespace")
      else raise (wrapped "failed to verify Group existence" e)

  validate_named_group : Node → Option String → Act W Unit
  unfolding judge_group
  validate_named_group node none =
      raise (failure "metadata.labels.group: Node must have a 'group' label")
  validate_named_group node (some group) = do
    found ← attempt (c.get_group (record { name = group; namespace = node.namespace }))
    judge_group found

  unfoldable pub validate_group_label : Node → Act W Unit
  unfolding validate_named_group lookup
  validate_group_label node = validate_named_group node (lookup node.labels "group")

  unfoldable pub validate_create : Node → Act W Unit
  unfolding validate_group_label validate_kubernetes_node
  validate_create node = do validate_group_label node; validate_kubernetes_node node

  unfoldable pub validate_update : Node → Node → Act W Unit
  unfolding validate_group_label validate_kubernetes_node
  validate_update old_obj new_obj = do
    validate_group_label new_obj
    validate_kubernetes_node new_obj

  unfoldable pub validate_delete : Node → Act W Unit
  validate_delete node = pure tt
