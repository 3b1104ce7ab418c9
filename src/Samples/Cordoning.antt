-- ===== src/Samples/Cordoning.antt =====
-- Runs of the uncordon on the sample cluster.
use homelab_autoscaler.Prelude.{arith}
use homelab_autoscaler.Prelude.Int.{pos}
use homelab_autoscaler.Fsm.KubeNodes.{set_node_schedulable_with_retry}
use homelab_autoscaler.Fsm.KubeNodes.Retries.{Ended, uncordon_ends}
use homelab_autoscaler.Samples.World.{server, asleep, cluster_of}
use homelab_autoscaler.Samples.Server.{clock_laws}

-- The fuel of 46 rounds for the default limit of 90 seconds.
uncordon_ends_example :
    Ended server clock_laws
      (set_node_schedulable_with_retry server 46 "metal" (pos 90_000_000_000) (cluster_of asleep))
uncordon_ends_example =
    uncordon_ends server clock_laws 45 90_000_000_000 "metal" (cluster_of asleep) (omega arith)
