-- ===== src/Samples/Serving.antt =====
-- Runs of the gRPC server, of the webhook and of the configuration on the sample cluster.
use mathlib.Core.Bool.{Bool-set}
use mathlib.Core.Logic.Or
use mathlib.Core.List.Perm as PermLaws
use mathlib.Core.List.Pairwise as Pairs
use mathlib.Core.List.{mem-cons, not-mem-nil}
use homelab_autoscaler.Prelude.{◌<◌, ◌^◌, arith, subst, List, ◌≡◌, refl, ◌↔◌, none, some, [], ◌∷◌}
use homelab_autoscaler.Prelude.Int.{negsuc}
use homelab_autoscaler.Prelude.Lists.{length, select}
use homelab_autoscaler.Action.{ok}
use homelab_autoscaler.Api.{Node, on, off, starting_up}
use homelab_autoscaler.Api.Client.{context_over}
use homelab_autoscaler.Config.{codes, validate_codes}
use homelab_autoscaler.Config.Names.{IsName, validate-IsName}
use homelab_autoscaler.Grpc.Sizes.{
  node_group_decrease_target_size, shut_down, count_target, shut_down_oldest, is_booting,
  is_powered_on, started_before,
}
use homelab_autoscaler.Grpc.Sizes.Decrease.{Decreased, decrease-Decreased}
use homelab_autoscaler.Grpc.Sizes.Shrinks.{Shrunk, decrease_shrinks}
use homelab_autoscaler.Samples.Server.{write_laws}
use homelab_autoscaler.Grpc.Sizes.Orders.{sizes_any_order}
use homelab_autoscaler.Fsm.Jobs.{startup, job_for, cleanup_pending_jobs}
use homelab_autoscaler.Fsm.Jobs.Pods.{deleted, cleanup_deletes}
use homelab_autoscaler.Webhook.{validate_create, validate_update}
use homelab_autoscaler.Webhook.Admission.{Grounded, admission-Grounded}
use homelab_autoscaler.Samples.World.{Cluster, server, asleep, awake, cluster_of, node_in}
use homelab_autoscaler.Samples.Words.{words}
use homelab_autoscaler.Samples.Sorting.{insertion_sort, sorting_laws}

abbrev booting : Node
booting = node_in on off starting_up

abbrev decreased : Cluster
decreased =
    (node_group_decrease_target_size server insertion_sort "small" (negsuc 0)
      (cluster_of booting)).1

decrease-Decreased_example :
    Decreased server insertion_sort "small" (negsuc 0) (cluster_of booting) decreased
unfolding node_group_decrease_target_size context_over select shut_down
decrease-Decreased_example =
    decrease-Decreased server insertion_sort sorting_laws "small" (negsuc 0) (cluster_of booting)
      decreased refl

one_listed :
    (u x : Cluster) (ns : List Node)
    → server.list_group_nodes "small" u ≡ (ok ns, x)
    → length ns < 2 ^ 31
one_listed u x ns h =
    let one : (u.node ∷ []) ≡ ns = cc in subst (λ nodes. length nodes < 2 ^ 31) one (omega arith)

decrease_shrinks_example : Shrunk server "small" 0 (cluster_of booting) decreased
unfolding node_group_decrease_target_size context_over select shut_down
decrease_shrinks_example =
    decrease_shrinks server insertion_sort sorting_laws write_laws "small" 0 (cluster_of booting)
      decreased one_listed refl

admission-Grounded_example :
    ((validate_create server awake (cluster_of awake) ≡ (ok tt, cluster_of awake))
      ↔ Grounded server awake (cluster_of awake) (cluster_of awake))
    × (validate_update server asleep awake (cluster_of awake)
        ≡ validate_create server awake (cluster_of awake))
admission-Grounded_example =
    admission-Grounded server asleep awake (cluster_of awake) (cluster_of awake)

validate-IsName_example : (validate_codes (codes "my-lab") ≡ none) ↔ IsName (codes "my-lab")
validate-IsName_example = validate-IsName (codes "my-lab")

-- A node that started to boot earlier, and its group in two orders.
abbrev earlier : Node
earlier = record booting { status = record booting.status { last_startup_time = some 5 } }

abbrev later : Node
later = record booting { status = record booting.status { last_startup_time = some 7 } }

sizes_any_order_example :
    (count_target (earlier ∷ later ∷ []) ≡ count_target (later ∷ earlier ∷ []))
    × (shut_down_oldest server insertion_sort (earlier ∷ later ∷ []) (negsuc 0)
        ≡ shut_down_oldest server insertion_sort (later ∷ earlier ∷ []) (negsuc 0))
unfolding select is_booting is_powered_on started_before
sizes_any_order_example =
    sizes_any_order server insertion_sort sorting_laws (earlier ∷ later ∷ []) (later ∷ earlier ∷ [])
      (negsuc 0) (PermLaws.swap later earlier [])
      (Pairs.cons
        (λ x m.
          Or.elim (Bool-set _ _) (mem-cons.0 m) (λ e. rw e refl) (λ n. absurd (not-mem-nil n)))
        (Pairs.cons (λ x m. absurd (not-mem-nil m)) Pairs.nil))

-- The startup of the sample node is under way.
abbrev starting : Cluster
starting = record (cluster_of asleep) { jobs = job_for words startup asleep 60_000_000_000 ∷ [] }

cleanup_deletes_example :
    cleanup_pending_jobs server words awake "metal" starting
    ≡ (ok tt, deleted server words (job_for words startup asleep 60_000_000_000 ∷ []) starting)
unfolding select
cleanup_deletes_example =
    cleanup_deletes server words awake asleep "metal" startup 60_000_000_000 [] [] starting starting
      (λ p. cc) refl
