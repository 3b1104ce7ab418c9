-- ===== src/Samples/Sequences.antt =====
-- Sequences of writes to the lock of the sample node.
use homelab_autoscaler.Prelude.{ℕ, ◌*◌, ◌≡◌, refl, none, some, arith}
use homelab_autoscaler.Prelude.Int.{pos}
use homelab_autoscaler.Action.{ok}
use homelab_autoscaler.Api.{Node, key_of, second}
use homelab_autoscaler.Api.Client.{time_now}
use homelab_autoscaler.Api.Maps.{value_of, set, delete}
use homelab_autoscaler.Fsm.Coordination.{
  acquire_lock, try_acquire, refuse_if_held, with_lock, delete_lock, or_new_map, check_lock,
  check_annotations, is_expired_at, times_second, release_lock, try_release, release_annotations,
}
use homelab_autoscaler.Fsm.Coordination.Stale.{release_lock_any_own}
use homelab_autoscaler.Fsm.Coordination.Histories.Acquisitions.{Gone, acquisition_excludes}
use homelab_autoscaler.Api.Server.{replaced}
use homelab_autoscaler.Fsm.Coordination.Histories.Operations.{
  Fulfilled, releasing, perform-Fulfilled,
}
use homelab_autoscaler.Samples.World.{Cluster, server, asleep, cluster_of}
use homelab_autoscaler.Samples.Server.{server_laws, stored, Later}
use homelab_autoscaler.Samples.Words.{words, words_laws}

-- The node that the gRPC server has locked, and the same node after its release.
abbrev held : Node
held = with_lock words asleep "scale-up" "grpc-server" 60_000_000_000 (pos 300_000_000_000)

abbrev freed : Node
freed = record held { annotations = some (delete_lock (or_new_map held.annotations)) }

abbrev held_again : Node
held_again =
    with_lock words freed "scale-down" "node-controller" 90_000_000_000 (pos 60_000_000_000)

abbrev locked_for_long : Cluster
locked_for_long =
    (acquire_lock server words "node-controller" asleep "scale-up" (pos 300_000_000_000)
      (cluster_of asleep)).1

-- The node controller asks for the lock again, after six minutes.
abbrev much_later : Cluster
much_later = record locked_for_long { clock = 420_000_000_000 }

abbrev locked_again : Cluster
locked_again =
    (acquire_lock server words "grpc-server" locked_for_long.node "scale-down" (pos 0) much_later).1

abbrev FirstLockGone : Type 0
FirstLockGone =
    (prior first old new : Node) × (stamp stamp' : ℕ) × (u : Cluster) × (stored locked_for_long
        (key_of asleep)
      ≡ some first)
    × (first.annotations
        ≡ (with_lock words prior "scale-up" "node-controller" stamp
            (pos (300 * second))).annotations)
    × (stored u (key_of locked_for_long.node) ≡ some old)
    × (stored locked_again ≡ replaced (stored u) (key_of locked_for_long.node) new)
    × ((x : Cluster) × Later x u
        × (server.update_node
              (with_lock words old "scale-down" "grpc-server" stamp' (pos 300_000_000_000)) x
            ≡ (ok new, locked_again)))
    × Gone server words words_laws "node-controller" server_laws first old stamp 300 u

acquisition_excludes_example : FirstLockGone
unfolding with_lock value_of set delete delete_lock check_lock check_annotations acquire_lock
    refuse_if_held try_acquire time_now is_expired_at times_second
acquisition_excludes_example =
    acquisition_excludes server words words_laws "node-controller" server_laws "grpc-server" asleep
      locked_for_long.node "scale-up" "scale-down" 300 (pos 0) (cluster_of asleep) locked_for_long
      much_later locked_again (λ p. cc) (λ p. cc) (omega arith) (omega arith) refl refl

abbrev after_release : Cluster
after_release = (release_lock server words "grpc-server" held (cluster_of held)).1

perform-Fulfilled_example :
    Fulfilled server words "grpc-server" server_laws releasing (key_of held) after_release
unfolding release_lock try_release release_annotations with_lock set value_of
perform-Fulfilled_example =
    perform-Fulfilled server words "grpc-server" server_laws releasing held (cluster_of held)
      after_release refl

-- The lock that the node controller has taken for a shutdown, as a start of the same controller leaves
-- it that only now releases its own.
abbrev unheld : Node
unheld = record held_again {
  annotations = some (delete_lock (or_new_map held_again.annotations));
  resource_version = "11";
}

release_lock_any_own_example :
    (release_lock server words "node-controller" asleep (cluster_of held_again)
      ≡ (ok tt, cluster_of unheld))
    × (stored (cluster_of unheld) (key_of asleep) ≡ some unheld)
    × (check_lock words unheld ≡ none)
unfolding with_lock set delete delete_lock
release_lock_any_own_example =
    release_lock_any_own server words "node-controller" server_laws asleep freed held_again unheld
      "scale-down" 90_000_000_000 (pos 60_000_000_000) (cluster_of held_again)
      (cluster_of held_again) (cluster_of unheld) refl refl refl
