-- ===== src/Fsm/Coordination.antt =====
-- The operation locks of internal/fsm/coordination.go: four annotations on a Node resource.
use homelab_autoscaler.Prelude.{
  ℕ, suc, ◌+◌, ◌-◌, ◌*◌, ◌%◌, ◌^◌, String, Bool, true, false, not, ◌||◌, Option, none, some, [],
  ltb, str_eq, ◌==◌, if◌then◌else◌,
}
use homelab_autoscaler.Prelude.Int.{ℤ, pos, negsuc, sub_ℕ, ltb_ℤ}
use homelab_autoscaler.Action.{Act, pure, raise, failure, wrap, ◌>>=◌, ◌>>◌}
use homelab_autoscaler.Api.{Node, key_of, second, minute}
use homelab_autoscaler.Api.Maps.{StringMap, value_of, set, delete}
use homelab_autoscaler.Api.Text.{Texts}
use homelab_autoscaler.Api.Client.{Client, time_now}
pub mod Interface
pub mod Locks
pub mod Managers
pub mod Exclusion
pub mod Views
pub mod Timeouts
pub mod Stale
pub mod Releases
pub mod Histories

abbrev pub operation_lock_annotation : String
operation_lock_annotation = "homelab-autoscaler.dev/operation-lock"

abbrev pub lock_owner_annotation : String
lock_owner_annotation = "homelab-autoscaler.dev/lock-owner"

abbrev pub lock_timestamp_annotation : String
lock_timestamp_annotation = "homelab-autoscaler.dev/lock-timestamp"

abbrev pub lock_timeout_annotation : String
lock_timeout_annotation = "homelab-autoscaler.dev/lock-timeout"

abbrev pub node_controller_owner : String
node_controller_owner = "node-controller"

abbrev pub default_lock_timeout : ℤ
default_lock_timeout = pos 300_000_000_000

pub record OperationLock : Type 0 where
  pub operation : String
  pub owner : String
  pub timestamp : ℕ
  pub timeout : ℤ

-- An int64 keeps the low 64 bits, as two's complement.
wrap_int64 : ℤ → ℤ
wrap_int64 (pos n) = let u = n % 2 ^ 64 in if ltb u (2 ^ 63) then pos u else negsuc (2 ^ 64 - u - 1)
wrap_int64 (negsuc n) =
    let u = n % 2 ^ 64 in if ltb u (2 ^ 63) then negsuc u else pos (2 ^ 64 - u - 1)

-- `time.Duration(s) * time.Second`
unfoldable pub times_second : ℤ → ℤ
unfolding wrap_int64
times_second (pos n) = wrap_int64 (pos (n * second))
times_second (negsuc n) = wrap_int64 (negsuc ((n + 1) * second - 1))

-- `time.Since(t)` at the time `now`
abbrev pub since : ℕ → ℕ → ℤ
since now t = sub_ℕ now t

unfoldable pub is_expired_at : ℕ → OperationLock → Bool
is_expired_at now lock = ltb_ℤ lock.timeout (since now lock.timestamp)

-- The map that the annotations become before they are written.
abbrev pub or_new_map : Option StringMap → StringMap
or_new_map none = []
or_new_map (some m) = m

-- The four `delete` calls.
unfoldable pub delete_lock : StringMap → StringMap
delete_lock m =
    delete
      (delete (delete (delete m operation_lock_annotation) lock_owner_annotation)
        lock_timestamp_annotation)
      lock_timeout_annotation

module _ (t : Texts) where
  unfoldable pub timeout_of : String → ℤ
  timeout_of text = if str_eq text "" then default_lock_timeout else elim (t.parse_seconds text) [
    | none ↦ default_lock_timeout
    | some seconds ↦ times_second seconds
  ]

  unfoldable pub check_annotations : StringMap → Option OperationLock
  unfolding timeout_of
  check_annotations m =
      let operation = value_of m operation_lock_annotation in
      let owner = value_of m lock_owner_annotation in
      let timestamp = value_of m lock_timestamp_annotation in
      if str_eq operation "" || str_eq owner "" || str_eq timestamp ""
      then none
      else elim (t.parse_time timestamp) [
        | none ↦ none
        | some time ↦ some (record {
          operation = operation;
          owner = owner;
          timestamp = time;
          timeout = timeout_of (value_of m lock_timeout_annotation);
        })
      ]

  unfoldable pub check_lock : Node → Option OperationLock
  unfolding check_annotations
  check_lock n = elim n.annotations [ none ↦ none | some m ↦ check_annotations m ]

  -- The fresh copy with the four annotations set.
  unfoldable pub with_lock : Node → String → String → ℕ → ℤ → Node
  with_lock fresh operation owner now timeout = record fresh {
    annotations = some (
        set
          (set
            (set (set (or_new_map fresh.annotations) operation_lock_annotation operation)
              lock_owner_annotation owner)
            lock_timestamp_annotation (t.format_time now))
          lock_timeout_annotation (t.format_seconds timeout));
  }

module _ {W : Type 0} (c : Client W) (t : Texts) (owner : String) where
  -- `IsLockExpired`; a nil lock counts as expired.
  unfoldable pub is_lock_expired : Option OperationLock → Act W Bool
  is_lock_expired none = pure true
  is_lock_expired (some lock) = do now ← time_now c; pure (is_expired_at now lock)

  -- `if existingLock, exists := …; exists { if !expired { return error } }`
  unfoldable pub refuse_if_held : Option OperationLock → String → Act W Unit
  unfolding is_lock_expired
  refuse_if_held none text = pure tt
  refuse_if_held (some lock) text = do
    expired ← is_lock_expired (some lock)
    if expired then pure tt else raise (failure text)

  -- The steps of the function that is retried on conflict, from the last to the first.
  abbrev pub store_lock : Node → String → ℤ → Act W Unit
  store_lock fresh operation timeout = do
    now ← time_now c
    c.update_node (with_lock t fresh operation owner now timeout)
    pure tt

  abbrev pub acquire_on : Node → String → ℤ → Act W Unit
  acquire_on fresh operation timeout = do
    refuse_if_held (check_lock t fresh) "coordination lock acquired by another process"
    store_lock fresh operation timeout

  unfoldable pub try_acquire : Node → String → ℤ → Act W Unit
  try_acquire node operation timeout = do
    fresh ← wrap "failed to get fresh node" (c.get_node (key_of node))
    acquire_on fresh operation timeout

  abbrev pub or_default : ℤ → ℤ
  or_default (pos n) = if n == 0 then default_lock_timeout else pos n
  or_default (negsuc n) = negsuc n

  unfoldable pub acquire_lock : Node → String → ℤ → Act W Unit
  acquire_lock node operation timeout = do
    refuse_if_held (check_lock t node) "coordination lock already exists"
    c.retry_on_conflict (try_acquire node operation (or_default timeout))

  unfoldable pub release_annotations : Node → Option StringMap → Act W Unit
  release_annotations fresh none = pure tt
  release_annotations fresh (some m) =
      let current_owner = value_of m lock_owner_annotation in
      if not (str_eq current_owner owner)
      then (if str_eq current_owner ""
          then pure tt
          else raise (failure "cannot release lock owned by another"))
      else do c.update_node (record fresh { annotations = some (delete_lock m) }); pure tt

  unfoldable pub try_release : Node → Act W Unit
  unfolding release_annotations
  try_release node = do
    fresh ← wrap "failed to get fresh node" (c.get_node (key_of node))
    release_annotations fresh fresh.annotations

  unfoldable pub release_lock : Node → Act W Unit
  release_lock node = c.retry_on_conflict (try_release node)

  unfoldable pub force_annotations : Node → Option StringMap → Act W Unit
  force_annotations fresh none = pure tt
  force_annotations fresh (some m) = do
    c.update_node (record fresh { annotations = some (delete_lock m) })
    pure tt

  unfoldable pub try_force_release : Node → Act W Unit
  unfolding force_annotations
  try_force_release node = do
    fresh ← wrap "failed to get fresh node" (c.get_node (key_of node))
    force_annotations fresh fresh.annotations

  unfoldable pub force_release_lock : Node → Act W Unit
  force_release_lock node = c.retry_on_conflict (try_force_release node)
