-- ===== src/Fsm/Coordination/Interface.antt =====
-- The interface `CoordinationManager` of internal/fsm/types.go, and its implementation by
-- internal/fsm/coordination.go.
use homelab_autoscaler.Prelude.{String, Bool, Option}
use homelab_autoscaler.Prelude.Int.{ℤ}
use homelab_autoscaler.Action.{Act}
use homelab_autoscaler.Api.{Node}
use homelab_autoscaler.Api.Text.{Texts}
use homelab_autoscaler.Api.Client.{Client}
use homelab_autoscaler.Fsm.Coordination
use homelab_autoscaler.Fsm.Coordination.{OperationLock}

pub record CoordinationManager (W : Type 0) : Type 0 where
  pub acquire_lock : Node → String → ℤ → Act W Unit
  pub release_lock : Node → Act W Unit
  pub check_lock : Node → Option OperationLock
  pub is_lock_expired : Option OperationLock → Act W Bool
  pub force_release_lock : Node → Act W Unit

-- `NewCoordinationManager`; its client and owner are those of `DefaultCoordinationManager`.
abbrev pub new_coordination_manager :
    {W : Type 0} → Client W → Texts → String → CoordinationManager W
new_coordination_manager c t owner = record {
  acquire_lock = Coordination.acquire_lock c t owner;
  release_lock = Coordination.release_lock c t owner;
  check_lock = Coordination.check_lock t;
  is_lock_expired = Coordination.is_lock_expired c t owner;
  force_release_lock = Coordination.force_release_lock c t owner;
}
