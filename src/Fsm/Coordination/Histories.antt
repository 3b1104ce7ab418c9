-- ===== src/Fsm/Coordination/Histories.antt =====
-- Sequences of changes to the lock annotations of a stored node (internal/fsm/coordination.go): the
-- managers of locks and other clients, in any order.

pub mod Operations
pub mod Exclusive
pub mod Acquisitions
use homelab_autoscaler.Prelude.{
  ℕ, ◌≤◌, String, ◌≡◌, Bool, true, false, Option, none, some, List, [], ◌∷◌, str_eq,
}
use homelab_autoscaler.Prelude.Int.{ℤ}
use homelab_autoscaler.Api.{Node}
use homelab_autoscaler.Api.Text.{Texts}
use homelab_autoscaler.Fsm.Coordination.{
  OperationLock, is_expired_at, or_new_map, check_lock, with_lock, delete_lock,
}
use homelab_autoscaler.Fsm.Coordination.Releases.{lock_owner}

-- What one atomic write does to the lock: a take by an owner that has looked at the expiry of what
-- it found at the time `seen`, a release by an owner, a forced release, or any other write.
pub data LockCall : Type 0 where
  take : String → ℕ → LockCall
  release : String → LockCall
  force : LockCall
  other : LockCall

-- No lock, or one that is expired at that time.
abbrev pub is_free_at : ℕ → Option OperationLock → Bool
is_free_at now none = true
is_free_at now (some lock) = is_expired_at now lock

-- What a write of the kind does to the stored node.
pub data Change (t : Texts) : LockCall → Node → Node → Type 0 where
  taken :
      {old new : Node} (owner operation : String) (seen stamp : ℕ) (timeout : ℤ)
      → is_free_at seen (check_lock t old) ≡ true
      → new.annotations ≡ (with_lock t old operation owner stamp timeout).annotations
      → Change t (take owner seen) old new
  released :
      {old new : Node} (owner : String)
      → lock_owner old ≡ owner
      → new.annotations ≡ some (delete_lock (or_new_map old.annotations))
      → Change t (release owner) old new
  forced :
      {old new : Node}
      → new.annotations ≡ some (delete_lock (or_new_map old.annotations))
      → Change t force old new
  kept : {old new : Node} → check_lock t new ≡ check_lock t old → Change t other old new

-- The writes to a node, one after the other, with the node that they start from and the last one.
pub data History (t : Texts) : List LockCall → Node → Node → Type 0 where
  beginning : {n : Node} → History t [] n n
  next :
      {call : LockCall} {calls : List LockCall} {n m k : Node}
      → Change t call n m
      → History t calls m k
      → History t (call ∷ calls) n k

-- A write that takes the lock away from its owner.
abbrev pub frees : String → LockCall → Bool
frees owner (take _ _) = false
frees owner (release o) = str_eq o owner
frees owner force = true
frees owner other = false

-- A take has looked no later than that.
abbrev pub LooksBy : ℕ → LockCall → Type 0
LooksBy now (take _ seen) = seen ≤ now
LooksBy now _ = Unit
