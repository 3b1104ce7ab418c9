-- ===== src/Fsm/Coordination/Timeouts.antt =====
-- What becomes of a lock timeout that no int64 of nanoseconds holds (internal/fsm/coordination.go).
use homelab_autoscaler.Prelude.{
  str_eq_of_ne, ℕ, ◌-◌, ◌*◌, ◌^◌, ◌<◌, ◌≤◌, String, ◌≡◌, ◌≢◌, ◌∙◌, true, some, arith,
}
use homelab_autoscaler.Prelude.Int.{pos, negsuc}
use homelab_autoscaler.Api.{second}
use homelab_autoscaler.Api.Maps.{StringMap, value_of}
use homelab_autoscaler.Api.Text.{Texts}
use homelab_autoscaler.Fsm.Coordination.{
  OperationLock, times_second, wrap_int64, is_expired_at, timeout_of, check_annotations,
  lock_timeout_annotation,
}
use homelab_autoscaler.Fsm.Coordination.Locks.{check_annotations-found}

-- Between 2^63 and 2^64 nanoseconds the product with `time.Second` is negative.
times_second_wraps :
    (n : ℕ)
    → 2 ^ 63 ≤ n * second
    → n * second < 2 ^ 64
    → times_second (pos n) ≡ negsuc (2 ^ 64 - n * second - 1)
unfolding times_second wrap_int64
times_second_wraps n low high = ground arith

timeout_of_wraps :
    (t : Texts) (text : String) (n : ℕ)
    → text ≢ ""
    → t.parse_seconds text ≡ some (pos n)
    → 2 ^ 63 ≤ n * second
    → n * second < 2 ^ 64
    → timeout_of t text ≡ negsuc (2 ^ 64 - n * second - 1)
unfolding timeout_of
timeout_of_wraps t text n named parsed low high =
    rw (str_eq_of_ne text "" named) (rw parsed (times_second_wraps n low high))

-- A lock whose timeout is a number of seconds from 2^63 up to 2^64 nanoseconds (292 to 584 years) is
-- expired at any time from that of the lock on, since the product wraps around to a negative number:
-- the longest of locks excludes no one.
pub long_timeout_expired :
    (t : Texts) (m : StringMap) (lock : OperationLock) (n now : ℕ)
    → check_annotations t m ≡ some lock
    → value_of m lock_timeout_annotation ≢ ""
    → t.parse_seconds (value_of m lock_timeout_annotation) ≡ some (pos n)
    → 2 ^ 63 ≤ n * second
    → n * second < 2 ^ 64
    → lock.timestamp ≤ now
    → is_expired_at now lock ≡ true
unfolding is_expired_at
long_timeout_expired t m lock n now found named parsed low high passed =
    rw ((check_annotations-found t m lock found).1 ∙ timeout_of_wraps t _ n named parsed low high)
      (ground arith)
