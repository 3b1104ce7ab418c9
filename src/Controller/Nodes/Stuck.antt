-- ===== src/Controller/Nodes/Stuck.antt =====
-- What a reconciliation does with a node in the middle of a transition.
use homelab_autoscaler.Prelude.{ℕ, ◌≡◌, refl, Bool, true, false, arith, is_some, ◌∙◌, ◌&&◌}
use homelab_autoscaler.Action.{ok}
use homelab_autoscaler.Api.{Node, minute}
use homelab_autoscaler.Api.Text.{Texts}
use homelab_autoscaler.Api.Client.{Client}
use homelab_autoscaler.Fsm.Events.{
  State, start_node, shutdown_node, get_destination_state, is_transitional_state,
}
use homelab_autoscaler.Fsm.Coordination.{node_controller_owner}
use homelab_autoscaler.Fsm.Machine.{Sys, set_current, state_of_progress, new_node_state_machine}
use homelab_autoscaler.Fsm.Machine.Engine.{Engine, EngineLaws}
use homelab_autoscaler.Fsm.Machine.Hooks.{get_fsm_callbacks}
use homelab_autoscaler.Fsm.Operations.{
  can_transition, calculate_backoff, check_stuck_state, is_transition_stuck,
}
use homelab_autoscaler.Fsm.Operations.Settles.{state_of}
use homelab_autoscaler.Controller.Nodes.{
  drive, watch_transition, handle_state_transitions, fresh_system,
}

no_start :
    (s : State)
    → is_transitional_state s ≡ true
    → is_some (get_destination_state s start_node) ≡ false
unfolding is_transitional_state get_destination_state
no_start s h = ground arith

no_shutdown :
    (s : State)
    → is_transitional_state s ≡ true
    → is_some (get_destination_state s shutdown_node) ≡ false
unfolding is_transitional_state get_destination_state
no_shutdown s h = ground arith

and_false : (b : Bool) → (b && false) ≡ false
and_false true = refl
and_false false = refl

module _ {W : Type 0} (c : Client W) (t : Texts) (fuel : ℕ) (e : Engine (Sys W))
    (laws : EngineLaws e state_of set_current
      (get_fsm_callbacks c t node_controller_owner fuel)) where
  -- A machine without a backoff is not cleaned up, and asks for a minute.
  watch_fresh :
      (node : Node) (w : W)
      → is_transitional_state (state_of_progress node.status.progress) ≡ true
      → watch_transition c t fuel e (fresh_system c t fuel e node w)
        ≡ (ok minute, fresh_system c t fuel e node w)
  unfolding watch_transition check_stuck_state is_transition_stuck calculate_backoff
      new_node_state_machine
  watch_fresh node w h = rw h refl

  -- With an engine that behaves as documented, `handleStateTransitionsWithFSM` does nothing at all
  -- for a node whose recorded progress is a transition, however long ago that began: it leaves the
  -- world as it was and asks to be called again in a minute. (It makes a new state machine, which
  -- has no backoff, so the check for stuck transitions finds nothing.)
  pub transition_never_forced :
      (node : Node) (w : W)
      → is_transitional_state (state_of_progress node.status.progress) ≡ true
      → handle_state_transitions c t fuel e node w ≡ (ok minute, w)
  unfolding handle_state_transitions drive watch_transition can_transition new_node_state_machine
  transition_never_forced node w h =
      let at = state_of_progress node.status.progress in
      rw (laws.can_table at start_node ∙ no_start at h) (
        rw (laws.can_table at shutdown_node ∙ no_shutdown at h)
          (rw and_false (rw and_false (rw (watch_fresh node w h) refl))))
