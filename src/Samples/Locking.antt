-- ===== src/Samples/Locking.antt =====
-- Runs of the locks on the sample cluster.
use homelab_autoscaler.Prelude.{◌*◌, ◌+◌, ◌-◌, ◌%◌, ◌≡◌, some, ltb, arith}
use homelab_autoscaler.Prelude.Int.{pos}
use homelab_autoscaler.Api.{second}
use homelab_autoscaler.Fsm.Coordination.{OperationLock, is_expired_at, check_lock, with_lock}
use homelab_autoscaler.Fsm.Coordination.Locks.{lock_lifetime}
use homelab_autoscaler.Samples.World.{asleep}
use homelab_autoscaler.Samples.Words.{words, words_laws}

lock_lifetime_example :
    (lock : OperationLock) × (check_lock words
        (with_lock words asleep "scale-up" "grpc-server" 60_500_000_000 (pos (300 * second)))
      ≡ some lock)
    × (lock.owner ≡ "grpc-server")
    × (lock.operation ≡ "scale-up")
    × (is_expired_at 400_000_000_000 lock
        ≡ ltb (60_500_000_000 - 60_500_000_000 % second + 300 * second) 400_000_000_000)
lock_lifetime_example =
    lock_lifetime words words_laws asleep "scale-up" "grpc-server" 60_500_000_000 300
      400_000_000_000 (λ p. cc) (λ p. cc) (omega arith)
