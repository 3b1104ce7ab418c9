-- ===== src/Samples/Together.antt =====
-- The gRPC server and the node controller together on the sample cluster.
use homelab_autoscaler.Prelude.{refl}
use homelab_autoscaler.Prelude.Int.{pos, negsuc}
use homelab_autoscaler.Prelude.Lists.{select}
use homelab_autoscaler.Api.{on, off, starting_up}
use homelab_autoscaler.Api.Client.{context_over}
use homelab_autoscaler.Grpc.Sizes.{
  node_group_increase_size, node_group_decrease_target_size, delete_one, shut_down,
}
use homelab_autoscaler.Scaling.{LeftWaiting, decrease-Waits}
use homelab_autoscaler.Samples.World.{Cluster, server, asleep, awake, cluster_of, node_in}
use homelab_autoscaler.Samples.Server.{write_laws}
use homelab_autoscaler.Samples.Words.{words}
use homelab_autoscaler.Samples.Machines.{looplab, looplab_laws}
use homelab_autoscaler.Samples.Sorting.{insertion_sort, sorting_laws}

abbrev grown : Cluster
grown = (node_group_increase_size server "small" (pos 1) (cluster_of asleep)).1

abbrev emptied : Cluster
emptied = (delete_one server "homelab" "one" (cluster_of awake)).1

abbrev shrunk : Cluster
shrunk =
    (node_group_decrease_target_size server insertion_sort "small" (negsuc 0)
      (cluster_of (node_in on off starting_up))).1

decrease-Waits_example :
    LeftWaiting server words 50 looplab
      (looplab_laws "node-controller" 50)
      write_laws
      insertion_sort
      shrunk
      "small"
      (cluster_of (node_in on off starting_up))
      shrunk
unfolding node_group_decrease_target_size context_over select shut_down
decrease-Waits_example =
    decrease-Waits server words 50 looplab (looplab_laws "node-controller" 50) write_laws
      insertion_sort shrunk sorting_laws "small" (negsuc 0)
      (cluster_of (node_in on off starting_up)) shrunk refl
