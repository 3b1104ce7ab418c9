-- ===== src/Fsm/Coordination/Views.antt =====
-- The abstract lock behind the annotations of internal/fsm/coordination.go: who holds the lock of a
-- node at a given time, and for what.
use homelab_autoscaler.Prelude.{
  ℕ, ◌*◌, ◌+◌, ◌-◌, ◌%◌, ◌^◌, ◌<◌, String, ◌≡◌, ◌≢◌, refl, inl, inr, Option, none, some, ltb, ap,
  ◌∙◌, arith, if◌then◌else◌,
}
use homelab_autoscaler.Prelude.Int.{ℤ, pos}
use homelab_autoscaler.Action.{ok}
use homelab_autoscaler.Api.{Node, Key, key_of, second}
use homelab_autoscaler.Api.Text.{Texts, TextLaws}
use homelab_autoscaler.Api.Client.{Client}
use homelab_autoscaler.Api.Server.{ServerLaws}
use homelab_autoscaler.Fsm.Coordination.{
  OperationLock, check_lock, with_lock, is_expired_at, acquire_lock, or_default,
}
use homelab_autoscaler.Fsm.Coordination.Locks.{lock_lifetime}
use homelab_autoscaler.Fsm.Coordination.Exclusion.{read_same}
use homelab_autoscaler.Fsm.Coordination.Managers.{NotHeld, acquire_lock_atomic}

-- A holder is an owner and an operation.
abbrev held_by : Option OperationLock → ℕ → Option (String × String)
held_by none now = none
held_by (some lock) now = if is_expired_at now lock then none else some (lock.owner, lock.operation)

-- Who holds the lock of the node at the time `now`.
abbrev pub view : Texts → Node → ℕ → Option (String × String)
view t n now = held_by (check_lock t n) now

module _ {W : Type 0} (c : Client W) (t : Texts) (texts : TextLaws t) (owner : String)
    {stored : W → Key → Option Node} {Later : W → W → Type 0}
    (laws : ServerLaws c stored Later) where
  free_at : (o : Option OperationLock) (w : W) → NotHeld c o w → (now : ℕ) × (held_by o now ≡ none)
  free_at o w (inl h) = (0, rw h refl)
  free_at o w (inr (lock, now, w0, h, clock, expired)) = (now, rw (h, expired) refl)

  given_timeout : (n : ℕ) → 0 < n → or_default c t owner (pos (n * second)) ≡ pos (n * second)
  given_timeout n h = ground arith

  -- The abstract lock goes from free to taken: on an API server and with texts that behave as
  -- documented, if `AcquireLock` succeeds (named operation and owner, a timeout of one or more whole
  -- seconds that fit an int64), then at some moment the stored node was held by no one at some time,
  -- and the node that is stored right after the call is held by the owner for the operation up to the
  -- timeout, counted from the whole second in which the lock was written, and by no one later.
  pub acquire_lock_takes :
      (node : Node) (operation : String) (n later : ℕ) (w v : W)
      → operation ≢ ""
      → owner ≢ ""
      → 0 < n
      → n * second < 2 ^ 63
      → acquire_lock c t owner node operation (pos (n * second)) w ≡ (ok tt, v)
      → (u : W) × (old m : Node) × (past stamp : ℕ) × (stored u (key_of node) ≡ some old)
        × (view t old past ≡ none)
        × (stored v (key_of node) ≡ some m)
        × (view t m later ≡ (
            if ltb (stamp - stamp % second + n * second) later
            then none
            else some (owner, operation)))
  acquire_lock_takes node operation n later w v ho hw hp hn ran =
      let (u, old, m, stamp, seen, free, before, after, written, _, _, _) =
        acquire_lock_atomic c t owner laws node operation (pos (n * second)) w v ran in
      let (past, none_then) = free_at (check_lock t old) seen free in
      let (lock, found, named, meant, expiry) =
        lock_lifetime t texts old operation owner stamp n later ho hw hn in
      (
        u,
        old,
        m,
        past,
        stamp,
        before,
        none_then,
        after,
        rw
            (read_same c t texts laws m (with_lock t old operation owner stamp (pos (n * second))) (
                written
                ∙ ap (λ (z : ℤ). (with_lock t old operation owner stamp z).annotations)
                    (given_timeout n hp))
              ∙ found)
            (rw (expiry, named, meant) refl),
      )
