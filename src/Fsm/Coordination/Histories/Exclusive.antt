-- ===== src/Fsm/Coordination/Histories/Exclusive.antt =====
-- Mutual exclusion over any sequence of writes to the lock annotations of internal/fsm/coordination.go.
use homelab_autoscaler.Prelude.{
  ℕ, ◌+◌, ◌-◌, ◌*◌, ◌%◌, ◌^◌, ◌<◌, ◌≤◌, String, ◌≡◌, ◌≢◌, refl, sym, subst, ◌∙◌, inl, inr, Bool,
  Bool-cases, true, false, Option, none, some, List, arith, eq_iff,
}
use homelab_autoscaler.Prelude.Int.{pos}
use homelab_autoscaler.Prelude.Lists.{exists_in, All}
use homelab_autoscaler.Api.{Node, second}
use homelab_autoscaler.Api.Maps.{StringMap, value_of}
use homelab_autoscaler.Api.Text.{Texts, TextLaws}
use homelab_autoscaler.Fsm.Coordination.{
  OperationLock, is_expired_at, check_annotations, check_lock, with_lock, lock_owner_annotation,
  or_new_map,
}
use homelab_autoscaler.Fsm.Coordination.Locks.{lock_lifetime, check_annotations-found}
use homelab_autoscaler.Fsm.Coordination.Releases.{lock_owner}
use homelab_autoscaler.Fsm.Coordination.Histories.{
  LockCall, take, release, force, other, Change, taken, released, forced, kept, History, beginning,
  next, frees, LooksBy,
}

-- What has not expired at a time was not expired before.
live_before :
    (lock : OperationLock) (seen now : ℕ)
    → seen ≤ now
    → is_expired_at now lock ≡ false
    → is_expired_at seen lock ≡ false
unfolding is_expired_at
live_before lock seen now h live = ground arith

owner_of_map :
    (t : Texts) (o : Option StringMap) (lock : OperationLock)
    → elim o [ none ↦ none | some m ↦ check_annotations t m ] ≡ some lock
    → lock.owner ≡ value_of (or_new_map o) lock_owner_annotation
owner_of_map t none lock h = absurd (cc)
owner_of_map t (some m) lock h = (check_annotations-found t m lock h).0

-- The owner of a lock that is found on a node is the one that the annotations name.
owner-lock_owner :
    (t : Texts) (n : Node) (lock : OperationLock)
    → check_lock t n ≡ some lock
    → lock.owner ≡ lock_owner n
unfolding check_lock
owner-lock_owner t n lock h = owner_of_map t n.annotations lock h

-- A write that does not free a live lock leaves it, and a take does not happen.
Change-keeps :
    (t : Texts) (call : LockCall) (n m : Node) (lock : OperationLock) (now : ℕ)
    → check_lock t n ≡ some lock
    → is_expired_at now lock ≡ false
    → LooksBy now call
    → frees lock.owner call ≡ false
    → Change t call n m
    → check_lock t m ≡ some lock
Change-keeps t (take _ seen) n m lock now found live by spares
      (taken owner operation _ stamp timeout free _) =
    absurd (cc (live_before lock seen now by live, rw found at free))
Change-keeps t (release o) n m lock now found live by spares (released _ own _) =
    absurd (cc (spares, (eq_iff o lock.owner).1 (sym own ∙ sym (owner-lock_owner t n lock found))))
Change-keeps t force n m lock now found live by spares (forced _) = absurd (cc)
Change-keeps t other n m lock now found live by spares (kept same) = same ∙ found

-- One write first, then the rest, by whether it frees the lock.
spared :
    (b : Bool) (rest : Bool)
    → elim b [ true ↦ true | false ↦ rest ] ≡ false
    → (b ≡ false) × (rest ≡ false)
spared true rest h = absurd (cc)
spared false rest h = (refl, h)

History-keeps :
    (t : Texts) {calls : List LockCall} {n m : Node} (lock : OperationLock) (now : ℕ)
    → check_lock t n ≡ some lock
    → is_expired_at now lock ≡ false
    → All (LooksBy now) calls
    → exists_in (frees lock.owner) calls ≡ false
    → History t calls n m
    → check_lock t m ≡ some lock
unfolding exists_in
History-keeps t lock now found live by spares beginning = found
History-keeps t lock now found live by spares (next {call} {calls} {n} {m} change rest) =
    let (first, others) =
      spared (frees lock.owner call) (exists_in (frees lock.owner) calls) spares in
    History-keeps t lock now (Change-keeps t call n m lock now found live by.0 first change) live
      by.1 others rest

-- A lock that is on the node at the start and not expired is freed before the next take.
taken_after_freed :
    (t : Texts) (calls : List LockCall) (n m k : Node) (lock : OperationLock)
    (second_owner : String) (now : ℕ)
    → check_lock t n ≡ some lock
    → is_expired_at now lock ≡ false
    → All (LooksBy now) calls
    → History t calls n m
    → Change t (take second_owner now) m k
    → exists_in (frees lock.owner) calls ≡ true
taken_after_freed t calls n m k lock second_owner now found live by before
      (taken _ _ _ _ _ free _) =
    elim (Bool-cases (exists_in (frees lock.owner) calls)) [
      | inl h ↦ h
      | inr spares ↦
          absurd (cc (live, rw (History-keeps t lock now found live by spares before) at free))
    ]

-- Mutual exclusion over every sequence of writes to a node, with texts that are read back as they were
-- printed: if an owner writes its lock (named operation and owner, whole seconds that fit an int64),
-- and after any writes an owner takes the lock that has looked before the first lock expired, then one
-- of the writes in between was a release by the owner of the first lock, or a forced release; provided
-- that the takes in between have looked no later than the last one.
pub takes_exclude :
    (t : Texts) (laws : TextLaws t) (calls : List LockCall) (old n m k : Node)
    (owner operation second_owner : String) (stamp seconds now : ℕ)
    → operation ≢ ""
    → owner ≢ ""
    → seconds * second < 2 ^ 63
    → n.annotations ≡ (with_lock t old operation owner stamp (pos (seconds * second))).annotations
    → All (LooksBy now) calls
    → History t calls n m
    → Change t (take second_owner now) m k
    → now ≤ stamp - stamp % second + seconds * second
    → exists_in (frees owner) calls ≡ true
unfolding check_lock
takes_exclude t laws calls old n m k owner operation second_owner stamp seconds now ho hw hs written
      by before last live =
    let (lock, found, named, _, expiry) =
      lock_lifetime t laws old operation owner stamp seconds now ho hw hs in
    subst (λ o. exists_in (frees o) calls ≡ true) named
      (taken_after_freed t calls n m k lock second_owner now (rw written found)
        (expiry ∙ ground arith) by before last)
