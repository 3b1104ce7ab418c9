-- ===== src/Controller/Cleanup/Copies.antt =====
-- The node controller's copies of the lock functions (internal/controller/infra/node_controller.go)
-- beside those of the coordination manager (internal/fsm/coordination.go).
use homelab_autoscaler.Prelude.{String, ◌≡◌, refl, Option, none, some}
use homelab_autoscaler.Action.{continue, wrap}
use homelab_autoscaler.Api.{Node, key_of}
use homelab_autoscaler.Api.Maps.{StringMap}
use homelab_autoscaler.Api.Text.{Texts}
use homelab_autoscaler.Api.Client.{Client}
use homelab_autoscaler.Fsm.Coordination.{
  OperationLock, check_lock, timeout_of, is_expired_at, delete_lock, force_annotations,
}
use homelab_autoscaler.Fsm.Coordination.{
  is_lock_expired as manager_expired, force_release_lock as manager_release,
  try_force_release as manager_try,
}
use homelab_autoscaler.Controller.Cleanup.{
  check_operation_lock, is_lock_expired, force_release_lock, unlocked,
}

module _ {W : Type 0} (c : Client W) (t : Texts) (owner : String) where
  same_lock :
      (n : Node) (o : Option StringMap)
      → n.annotations ≡ o
      → check_operation_lock t n ≡ check_lock t n
  unfolding check_operation_lock check_lock timeout_of
  same_lock n none h = rw h refl
  same_lock n (some m) h = rw h refl

  same_expiry :
      (o : Option OperationLock) (w : W) → is_lock_expired c t o w ≡ manager_expired c t owner o w
  unfolding is_lock_expired manager_expired is_expired_at
  same_expiry none w = refl
  same_expiry (some lock) w = refl

  same_removal :
      (fresh : Node) (o : Option StringMap)
      → unlocked c t fresh o ≡ force_annotations c t owner fresh o
  unfolding force_annotations delete_lock unlocked
  same_removal fresh none = refl
  same_removal fresh (some m) = refl

  -- The node controller's own functions on locks are those of the coordination manager, whoever that
  -- belongs to: they read the same lock from every node, find the same locks to be expired, and
  -- release by force with the same calls and the same results.
  pub copies_agree :
      (n : Node) (o : Option OperationLock) (w : W)
      → (check_operation_lock t n ≡ check_lock t n)
        × (is_lock_expired c t o w ≡ manager_expired c t owner o w)
        × (force_release_lock c t n w ≡ manager_release c t owner n w)
  unfolding force_release_lock manager_release manager_try
  copies_agree n o w = (
    same_lock n n.annotations refl,
    same_expiry o w,
    λ i.
        c.retry_on_conflict
          (λ v.
            continue (wrap "failed to get fresh node" (c.get_node (key_of n)) v)
              (λ fresh. same_removal fresh fresh.annotations i))
          w,
  )
