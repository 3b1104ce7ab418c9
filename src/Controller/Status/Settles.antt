-- ===== src/Controller/Status/Settles.antt =====
-- That the controller of the Kubernetes nodes (internal/controller/core/node_controller.go) comes to rest.
use homelab_autoscaler.Prelude.{String, ◌≡◌, refl, ap, true, false, Bool-cases, inl, inr, some}
use homelab_autoscaler.Prelude.Lists.{exists_in}
use homelab_autoscaler.Action.{ok}
use homelab_autoscaler.Api.{Node, NodeStatus, KubeNode, same_power}
use homelab_autoscaler.Api.Maps.{lookup}
use homelab_autoscaler.Api.Client.{Client}
use homelab_autoscaler.Api.Server.{WriteLaws}
use homelab_autoscaler.Controller.Status.{
  is_up, get_node_status, synced, sync_node, or_no_labels, reconcile_kube_node,
}

-- The power state that is read off a Kubernetes node is the one that is written.
same_status : (k : KubeNode) → same_power (get_node_status k) (get_node_status k) ≡ true
unfolding get_node_status
same_status k = elim (Bool-cases (exists_in is_up k.conditions)) [
  | inl h ↦ rw h refl
  | inr h ↦ rw h refl
]

module _ {W : Type 0} (c : Client W) (namespace : String) where
  -- Once the controller has stored the power state of a Kubernetes node, a reconciliation of the same
  -- Kubernetes node that reads what was stored writes nothing: for a Kubernetes node that names a Node
  -- resource with another power state, on a server that keeps the status it is sent, the first
  -- reconciliation succeeds with one write, and the second succeeds with the two reads alone.
  pub reconcile_settles :
      (writes : WriteLaws c) (name label : String) (k : KubeNode) (node m : Node)
      (w w1 w2 v x x1 x2 : W)
      → lookup (or_no_labels k.labels) "infra.homecluster.dev/node" ≡ some label
      → c.get_kube_node name w ≡ (ok k, w1)
      → c.get_node (record { name = label; namespace = namespace }) w1 ≡ (ok node, w2)
      → same_power node.status.power_state (get_node_status k) ≡ false
      → c.update_node_status (synced node (get_node_status k)) w2 ≡ (ok m, v)
      → c.get_kube_node name x ≡ (ok k, x1)
      → c.get_node (record { name = label; namespace = namespace }) x1 ≡ (ok m, x2)
      → (reconcile_kube_node c namespace name w ≡ (ok tt, v))
        × (reconcile_kube_node c namespace name x ≡ (ok tt, x2))
  unfolding reconcile_kube_node sync_node synced
  reconcile_settles writes name label k node m w w1 w2 v x x1 x2 managed got read differs put
        got_again read_again =
      let power : m.status.power_state ≡ get_node_status k =
        ap (λ (s : NodeStatus). s.power_state)
          (writes.update_status_keeps (synced node (get_node_status k)) m w2 v put) in
      (
        rw (got, managed, read, differs, put) refl,
        rw (got_again, managed, read_again, power, same_status k) refl,
      )
