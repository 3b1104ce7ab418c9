-- ===== src/Samples/Settling.antt =====
-- A Kubernetes node that has come up, and the Node resource that is not yet on.
use homelab_autoscaler.Prelude.{◌≡◌, refl, some, [], ◌∷◌}
use homelab_autoscaler.Prelude.Lists.{exists_in}
use homelab_autoscaler.Action.{ok}
use homelab_autoscaler.Api.{Node}
use homelab_autoscaler.Api.Maps.{lookup}
use homelab_autoscaler.Controller.Status.{synced, get_node_status, reconcile_kube_node}
use homelab_autoscaler.Controller.Status.Settles.{reconcile_settles}
use homelab_autoscaler.Samples.World.{Cluster, server, asleep, cluster_of, metal}
use homelab_autoscaler.Samples.Server.{write_laws}

abbrev risen : Cluster
risen = record (cluster_of asleep) {
  kube = record metal { labels = some (("infra.homecluster.dev/node", "one") ∷ []) };
}

abbrev noted : Node
noted = record (synced asleep (get_node_status risen.kube)) { resource_version = "11" }

abbrev settled : Cluster
settled = record risen { node = noted }

reconcile_settles_example :
    (reconcile_kube_node server "homelab" "metal" risen ≡ (ok tt, settled))
    × (reconcile_kube_node server "homelab" "metal" settled ≡ (ok tt, settled))
unfolding lookup get_node_status exists_in synced
reconcile_settles_example =
    reconcile_settles server "homelab" write_laws "metal" "one" risen.kube asleep noted risen risen
      risen settled settled settled settled refl refl refl refl refl refl refl
