-- ===== src/Fsm/Coordination/Exclusion.antt =====
-- The mutual exclusion that the locks of internal/fsm/coordination.go are for: a manager with a stale
-- copy of the node.
use homelab_autoscaler.Prelude.{
  ℕ, ◌*◌, ◌+◌, ◌-◌, ◌%◌, ◌^◌, ◌<◌, ◌≤◌, String, ◌≡◌, ◌≢◌, refl, false, Option, none, some, arith,
  ap, ◌∙◌,
}
use homelab_autoscaler.Prelude.Int.{ℤ, pos}
use homelab_autoscaler.Action.{Result, ok, err, failure}
use homelab_autoscaler.Api.{Node, Key, key_of, second}
use homelab_autoscaler.Api.Text.{Texts, TextLaws}
use homelab_autoscaler.Api.Client.{Client, time_now}
use homelab_autoscaler.Api.Server.{ServerLaws, fails_with_conflict}
use homelab_autoscaler.Fsm.Coordination.{
  OperationLock, check_lock, with_lock, refuse_if_held, try_acquire, acquire_lock, is_expired_at,
  or_default,
}
use homelab_autoscaler.Fsm.Coordination.Locks.{lock_lifetime}

module _ {W : Type 0} (c : Client W) (t : Texts) (texts : TextLaws t)
    {stored : W → Key → Option Node} {Later : W → W → Type 0}
    (laws : ServerLaws c stored Later) where
  try_refused :
      (other operation : String) (node fresh : Node) (lock : OperationLock) (now : ℕ) (timeout : ℤ)
      (w w1 w2 : W)
      → check_lock t fresh ≡ some lock
      → is_expired_at now lock ≡ false
      → c.get_node (key_of node) w ≡ (ok fresh, w1)
      → time_now c w1 ≡ (ok now, w2)
      → try_acquire c t other node operation timeout w
        ≡ (err (failure "coordination lock acquired by another process"), w2)
  unfolding try_acquire refuse_if_held
  try_refused other operation node fresh lock now timeout w w1 w2 found live got clock =
      rw (got, found, clock, live)

  pub read_same : (n m : Node) → n.annotations ≡ m.annotations → check_lock t n ≡ check_lock t m
  unfolding check_lock
  read_same n m h = rw h refl

  -- Two managers exclude each other, on an API server and with texts that behave as documented: while
  -- what the server holds has the lock that one has written (named operation and owner, whole seconds
  -- that fit an int64), no one acquires the lock up to its last second, even with a copy of the node
  -- that shows no lock; the only calls made read the node and the clock.
  pub acquire_lock_excluded :
      (owner other operation operation' : String) (old node fresh : Node) (stamp seconds now : ℕ)
      (timeout : ℤ) (w w1 w2 : W)
      → operation ≢ ""
      → owner ≢ ""
      → seconds * second < 2 ^ 63
      → fresh.annotations
        ≡ (with_lock t old operation owner stamp (pos (seconds * second))).annotations
      → check_lock t node ≡ none
      → c.get_node (key_of node) w ≡ (ok fresh, w1)
      → time_now c w1 ≡ (ok now, w2)
      → now ≤ stamp - stamp % second + seconds * second
      → acquire_lock c t other node operation' timeout w
        ≡ (err (failure "coordination lock acquired by another process"), w2)
  unfolding acquire_lock refuse_if_held
  acquire_lock_excluded owner other operation operation' old node fresh stamp seconds now timeout w
        w1 w2 ho hw hs same unlocked got clock live =
      let (lock, found, _, _, expiry) =
        lock_lifetime t texts old operation owner stamp seconds now ho hw hs in
      let refused =
        try_refused other operation' node fresh lock now (or_default c t other timeout) w w1 w2
          (read_same fresh _ same ∙ found) (expiry ∙ ground arith) got clock in
      rw unlocked (
        laws.retry_once (try_acquire c t other node operation' (or_default c t other timeout)) w
          (ap (λ (r : Result Unit × W). fails_with_conflict r.0) refused)
        ∙ refused)
