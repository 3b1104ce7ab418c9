-- ===== src/Controller/Cleanup.antt =====
-- The node controller's own copy of the lock functions (internal/controller/infra/node_controller.go):
-- reading a lock, its expiry, its forced release, and the cleanup over all nodes.
pub mod Sweeps
pub mod Copies
use homelab_autoscaler.Prelude.{
  Bool, true, ◌||◌, Option, none, some, List, [], ◌∷◌, str_eq, if◌then◌else◌,
}
use homelab_autoscaler.Prelude.Int.{ltb_ℤ}
use homelab_autoscaler.Action.{Act, pure, attempt, wrap, ◌>>=◌, ◌>>◌}
use homelab_autoscaler.Api.{Node, key_of}
use homelab_autoscaler.Api.Maps.{StringMap, value_of, delete}
use homelab_autoscaler.Api.Text.{Texts}
use homelab_autoscaler.Api.Client.{Client, time_now}
use homelab_autoscaler.Fsm.Coordination.{
  OperationLock, operation_lock_annotation, lock_owner_annotation, lock_timestamp_annotation,
  lock_timeout_annotation, default_lock_timeout, times_second, since,
}

module _ (t : Texts) where
  read_lock : StringMap → Option OperationLock
  read_lock m =
      if str_eq (value_of m operation_lock_annotation) ""
        || str_eq (value_of m lock_owner_annotation) ""
        || str_eq (value_of m lock_timestamp_annotation) ""
      then none
      else elim (t.parse_time (value_of m lock_timestamp_annotation)) [
        | none ↦ none
        | some time ↦ some (record {
          operation = value_of m operation_lock_annotation;
          owner = value_of m lock_owner_annotation;
          timestamp = time;
          timeout =
              if str_eq (value_of m lock_timeout_annotation) ""
              then default_lock_timeout
              else elim (t.parse_seconds (value_of m lock_timeout_annotation)) [
                | none ↦ default_lock_timeout
                | some seconds ↦ times_second seconds
              ];
        })
      ]

  unfoldable pub check_operation_lock : Node → Option OperationLock
  unfolding read_lock
  check_operation_lock n = elim n.annotations [ none ↦ none | some m ↦ read_lock m ]

module _ {W : Type 0} (c : Client W) (t : Texts) where
  -- `isLockExpired`; a nil lock counts as expired.
  unfoldable pub is_lock_expired : Option OperationLock → Act W Bool
  is_lock_expired none = pure true
  is_lock_expired (some lock) = do
    now ← time_now c
    pure (ltb_ℤ lock.timeout (since now lock.timestamp))

  unlocked : Node → Option StringMap → Act W Unit
  unlocked fresh none = pure tt
  unlocked fresh (some m) = do
    c.update_node (record fresh {
      annotations = some (
          delete
            (delete (delete (delete m operation_lock_annotation) lock_owner_annotation)
              lock_timestamp_annotation)
            lock_timeout_annotation);
    })
    pure tt

  try_force_release : Node → Act W Unit
  unfolding unlocked
  try_force_release node = do
    fresh ← wrap "failed to get fresh node" (c.get_node (key_of node))
    unlocked fresh fresh.annotations

  unfoldable pub force_release_lock : Node → Act W Unit
  unfolding try_force_release
  force_release_lock node = c.retry_on_conflict (try_force_release node)

  release_if_expired : Node → Option OperationLock → Act W Unit
  release_if_expired node none = pure tt
  release_if_expired node (some lock) = do
    expired ← is_lock_expired (some lock)
    if expired then (attempt (force_release_lock node) >> pure tt) else pure tt

  -- The loop; a release that fails is only logged.
  unfoldable pub cleanup_each : List Node → Act W Unit
  unfolding release_if_expired
  cleanup_each [] = pure tt
  cleanup_each (node ∷ nodes) =
      let rest = cleanup_each nodes in
      do release_if_expired node (check_operation_lock t node); rest

  unfoldable pub cleanup_expired_locks : Act W Unit
  cleanup_expired_locks = do
    nodes ← wrap "failed to list nodes for lock cleanup" c.list_nodes
    cleanup_each nodes
