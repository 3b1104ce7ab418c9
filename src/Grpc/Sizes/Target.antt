-- ===== src/Grpc/Sizes/Target.antt =====
-- What `NodeGroupTargetSize` of internal/grpcserver/server.go counts.
use homelab_autoscaler.Prelude.{◌+◌, ◌≡◌, refl, Bool, ◌||◌, List, [], ◌∷◌, ◌++◌, arith}
use homelab_autoscaler.Prelude.Lists.{length, select}
use homelab_autoscaler.Api.{Node, shutting_down, is_shutting_down, is_shutdown}
use homelab_autoscaler.Grpc.Sizes.{counts, count_target, set_progress}

abbrev pub is_down : Node → Bool
is_down n = is_shutting_down n.status.progress || is_shutdown n.status.progress

-- The target size and the nodes that are shut down or shutting down add up to the whole group.
pub target_complement : (ns : List Node) → count_target ns + length (select is_down ns) ≡ length ns
unfolding count_target select counts
target_complement [] = refl
target_complement (n ∷ ns) = ground (arith, target_complement ns)

-- Marking a node of the group as shutting down takes exactly one from the target size if the node
-- was counted, and nothing otherwise.
pub target-shutting_down :
    (before after : List Node) (n : Node)
    → count_target (before ++ n ∷ after)
      ≡ count_target (before ++ set_progress n shutting_down ∷ after) + count_target (n ∷ [])
unfolding count_target counts
target-shutting_down [] after n = ground arith
target-shutting_down (m ∷ before) after n = ground (arith, target-shutting_down before after n)
