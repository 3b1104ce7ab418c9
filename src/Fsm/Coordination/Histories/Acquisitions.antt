-- ===== src/Fsm/Coordination/Histories/Acquisitions.antt =====
-- What an acquisition of internal/fsm/coordination.go is worth to its caller, whatever others do.
use homelab_autoscaler.Prelude.{
  ℕ, ◌+◌, ◌-◌, ◌*◌, ◌%◌, ◌^◌, ◌<◌, String, ◌≡◌, ◌≢◌, refl, ap, ◌∙◌, ◌⊎◌, inl, inr, Bool-cases,
  Option, some, ltb, arith,
}
use homelab_autoscaler.Prelude.Int.{ℤ, pos}
use homelab_autoscaler.Action.{ok}
use homelab_autoscaler.Api.{Node, Key, key_of, second}
use homelab_autoscaler.Api.Text.{Texts, TextLaws}
use homelab_autoscaler.Api.Client.{Client, time_now}
use homelab_autoscaler.Api.Server.{ServerLaws, replaced}
use homelab_autoscaler.Fsm.Coordination.{
  OperationLock, is_expired_at, check_lock, with_lock, or_default, acquire_lock,
}
use homelab_autoscaler.Fsm.Coordination.Locks.{lock_lifetime}
use homelab_autoscaler.Fsm.Coordination.Managers.{NotHeld, acquire_lock_atomic}

module _ {W : Type 0} (c : Client W) (t : Texts) (texts : TextLaws t) (owner : String)
    {stored : W → Key → Option Node} {Later : W → W → Type 0}
    (laws : ServerLaws c stored Later) where
  given_timeout : (n : ℕ) → 0 < n → or_default c t owner (pos (n * second)) ≡ pos (n * second)
  given_timeout n h = ground arith

  -- What the second acquisition has to do with the lock that the first has stored: it finds another
  -- one, or none, in the node that it overwrites; or an earlier reading of the clock is past the whole
  -- second of the stamp by more than the seconds.
  abbrev pub Gone : Node → Node → ℕ → ℕ → W → Type 0
  Gone first old stamp seconds u =
      (check_lock t old ≢ check_lock t first)
      ⊎ ((x y : W) × (now : ℕ) × (time_now c x ≡ (ok now, y))
          × Later y u
          × (stamp - stamp % second + seconds * second < now))

  same_reading : (n m : Node) → n.annotations ≡ m.annotations → check_lock t n ≡ check_lock t m
  unfolding check_lock
  same_reading n m h = rw h refl

  gone :
      (first old : Node) (lock : OperationLock) (stamp seconds : ℕ) (seen u : W)
      → check_lock t first ≡ some lock
      → ((now : ℕ) → is_expired_at now lock ≡ ltb (stamp - stamp % second + seconds * second) now)
      → Later seen u
      → NotHeld c (check_lock t old) seen
      → Gone first old stamp seconds u
  gone first old lock stamp seconds seen u found expiry later (inl free) =
      inl (λ same. cc (free, same, found))
  gone first old lock stamp seconds seen u found expiry later
        (inr (other, now, x, holds, clock, expired)) =
      elim (Bool-cases (is_expired_at now lock)) [
        | inl over ↦ inr (x, seen, now, clock, later, ground (arith, expiry now, over))
        | inr live ↦ inl (λ same.
            let the_same : other ≡ lock = cc (holds, same, found) in
            absurd (cc (live, ap (λ (l : OperationLock). is_expired_at now l) the_same, expired)))
      ]

  -- Two acquisitions of the lock of a node exclude each other until the first is freed or over, on an
  -- API server and with texts that behave as documented, whatever others do before, between and in the
  -- two calls: if `AcquireLock` succeeds (named operation and owner, one or more whole seconds that fit
  -- an int64) and stores a node with its lock, and `AcquireLock` succeeds for any owner, then at the
  -- moment of the second call's write (what is stored after it is what was stored right before, but for
  -- that node, on which its lock was set) the lock in the stored node was not the first one, or the clock had been read past the
  -- whole second of the first lock's time by more than the seconds asked for.
  pub acquisition_excludes :
      (other : String) (node node' : Node) (operation operation' : String) (seconds : ℕ)
      (timeout : ℤ) (w1 v1 w2 v2 : W)
      → operation ≢ ""
      → owner ≢ ""
      → 0 < seconds
      → seconds * second < 2 ^ 63
      → acquire_lock c t owner node operation (pos (seconds * second)) w1 ≡ (ok tt, v1)
      → acquire_lock c t other node' operation' timeout w2 ≡ (ok tt, v2)
      → (prior first old new : Node) × (stamp stamp' : ℕ) × (u : W) × (stored v1 (key_of node)
          ≡ some first)
        × (first.annotations
            ≡ (with_lock t prior operation owner stamp (pos (seconds * second))).annotations)
        × (stored u (key_of node') ≡ some old)
        × (stored v2 ≡ replaced (stored u) (key_of node') new)
        × ((x : W) × Later x u
            × (c.update_node
                  (with_lock t old operation' other stamp' (or_default c t other timeout))
                  x
                ≡ (ok new, v2)))
        × Gone first old stamp seconds u
  acquisition_excludes other node node' operation operation' seconds timeout w1 v1 w2 v2 ho hw hp hs
        ran ran' =
      let (_, prior, first, stamp, _, _, _, after, written, _, _, _) =
        acquire_lock_atomic c t owner laws node operation (pos (seconds * second)) w1 v1 ran in
      let (u, old, new, stamp', seen, free, at_u, _, _, later, only, sent) =
        acquire_lock_atomic c t other laws node' operation' timeout w2 v2 ran' in
      let here : first.annotations
          ≡ (with_lock t prior operation owner stamp (pos (seconds * second))).annotations =
        written
        ∙ ap (λ (z : ℤ). (with_lock t prior operation owner stamp z).annotations)
            (given_timeout seconds hp) in
      let (lock, found, _, _, _) =
        lock_lifetime t texts prior operation owner stamp seconds 0 ho hw hs in
      (
        prior,
        first,
        old,
        new,
        stamp,
        stamp',
        u,
        after,
        here,
        at_u,
        only,
        sent,
        gone first old lock stamp seconds seen u (same_reading first _ here ∙ found)
            (λ now.
              let (again, found', _, _, expiry) =
                lock_lifetime t texts prior operation owner stamp seconds now ho hw hs in
              let the_same : lock ≡ again = cc in
              ap (λ (l : OperationLock). is_expired_at now l) the_same ∙ expiry)
            later free,
      )
