-- ===== src/Controller/Status/Synced.antt =====
-- What the controller of the Kubernetes nodes stores in a Node resource.
use homelab_autoscaler.Prelude.{◌≡◌, ◌⊎◌, refl, Bool, true, false, ◌||◌, arith}
use homelab_autoscaler.Api.{
  Node, KubeNode, on, off, ready, shutdown, is_starting_up, is_shutting_down,
}
use homelab_autoscaler.Controller.Status.{synced, get_node_status}

abbrev pub in_transition_of : Node → Bool
in_transition_of n = is_starting_up n.status.progress || is_shutting_down n.status.progress

-- What is stored for a Kubernetes node: its power state is `on` or `off`; a transition of the state
-- machine keeps its progress; outside of one, the progress is `ready` if the node is on and `shutdown`
-- if it is off; the specification and the annotations, with any lock among them, stay.
pub synced-Agrees :
    (n : Node) (k : KubeNode)
    → ((synced n (get_node_status k)).status.power_state ≡ get_node_status k)
      × (((in_transition_of n ≡ true)
            × ((synced n (get_node_status k)).status.progress ≡ n.status.progress))
          ⊎ ((in_transition_of n ≡ false)
              × (get_node_status k ≡ on)
              × ((synced n (get_node_status k)).status.progress ≡ ready))
          ⊎ ((in_transition_of n ≡ false)
              × (get_node_status k ≡ off)
              × ((synced n (get_node_status k)).status.progress ≡ shutdown)))
      × ((synced n (get_node_status k)).spec ≡ n.spec)
      × ((synced n (get_node_status k)).annotations ≡ n.annotations)
unfolding synced get_node_status
synced-Agrees n k = (refl, ground arith, refl, refl)
