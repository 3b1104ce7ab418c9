-- ===== src/Samples/Sizing.antt =====
-- The sizes of the sample group.
use homelab_autoscaler.Prelude.{
  ℕ, ◌<◌, ◌⊎◌, ◌+◌, ◌≡◌, refl, false, none, List, [], ◌∷◌, ◌++◌, arith,
}
use homelab_autoscaler.Prelude.Int.{pos}
use homelab_autoscaler.Prelude.Lists.{length, select, find_first, FirstIn}
use homelab_autoscaler.Action.{
  ok, err, status, internal, failed_precondition, or_status, pure, ◌>>◌,
}
use homelab_autoscaler.Api.{Node, on}
use homelab_autoscaler.Api.Client.{context_over}
use homelab_autoscaler.Grpc.Sizes.{
  counts, count_target, can_start, set_desired, node_group_target_size, node_group_increase_size,
}
use homelab_autoscaler.Grpc.Sizes.Target.{is_down}
use homelab_autoscaler.Grpc.Sizes.Lags.{target_within_group, increase_unseen}
use homelab_autoscaler.Grpc.Groups.{groups_of}
use homelab_autoscaler.Grpc.Sizes.Capacity.{startable, none_yet, one_more, increase_capacity}
use homelab_autoscaler.Grpc.Statuses.{Typed, server-Typed}
use homelab_autoscaler.Samples.Words.{words}
use homelab_autoscaler.Samples.Sorting.{insertion_sort}
use homelab_autoscaler.Samples.World.{Cluster, server, asleep, awake, cluster_of, small_group}
use homelab_autoscaler.Samples.Server.{write_laws}

target_within_group_example :
    (target max : ℕ) × (node_group_target_size server "small" (cluster_of awake)
      ≡ (ok (pos target), cluster_of awake))
    × (groups_of server (small_group ∷ []) (cluster_of awake) ≡ (
      ok (record { id = "small"; min_size = pos 0; max_size = pos max } ∷ []),
      cluster_of awake,
    ))
    × (target + length (select is_down (awake ∷ [])) ≡ max)
unfolding context_over
target_within_group_example =
    target_within_group server small_group (awake ∷ []) (cluster_of awake) (cluster_of awake)
      (cluster_of awake) (cluster_of awake) (cluster_of awake) refl refl refl (omega arith)

abbrev enlarged : Cluster
enlarged = (node_group_increase_size server "small" (pos 2) (cluster_of asleep)).1

increase_unseen_example :
    (u1 u2 : Cluster) × (before after : List Node) × (n m : Node) × (server.list_group_nodes "small"
        u1
      ≡ (ok (before ++ n ∷ after), u2))
    × (server.update_node (set_desired n on) u2 ≡ (ok m, enlarged))
    × (count_target (before ++ m ∷ after) ≡ count_target (before ++ n ∷ after))
    × (counts m ≡ false)
unfolding node_group_increase_size context_over can_start find_first
increase_unseen_example =
    increase_unseen server write_laws "small" (pos 2) (cluster_of asleep) enlarged refl

-- The encoder gives back the node, and no price is read.
server-Typed_example :
    Typed {Float = ℕ} server words
      (λ k. ok k)
      (λ _. none)
      0
      insertion_sort
      "homelab"
      "small"
      "one"
      (pos 1)
      ("one" ∷ [])
server-Typed_example =
    server-Typed {Float = ℕ} server words (λ k. ok k) (λ _. none) 0 insertion_sort "homelab" "small"
      "one" (pos 1) ("one" ∷ [])

-- The sample node as an increase has stored it.
abbrev called : Node
called = enlarged.node

-- One node could start, and one increase was made.
increase_capacity_example :
    ((startable (asleep ∷ []) ≡ 1)
      × (node_group_increase_size server "small" (pos 3) enlarged
          ≡ (err (status failed_precondition), enlarged)))
    ⊎ ((1 < startable (asleep ∷ []))
        × (n : Node) × FirstIn can_start (called ∷ []) n
        × (node_group_increase_size server "small" (pos 3) enlarged
            ≡ (or_status internal (server.update_node (set_desired n on)) >> pure tt) enlarged))
unfolding node_group_increase_size context_over can_start find_first
increase_capacity_example =
    increase_capacity server write_laws "small" 1 (pos 3) (asleep ∷ []) (called ∷ [])
      (cluster_of asleep) enlarged enlarged enlarged
      (one_more [] [] asleep called none_yet refl refl refl tt refl) refl refl refl
