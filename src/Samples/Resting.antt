-- ===== src/Samples/Resting.antt =====
-- Transitions of the sample node that come to rest.
use homelab_autoscaler.Prelude.{◌≡◌, refl, ap, [], ◌∷◌}
use homelab_autoscaler.Action.{ok}
use homelab_autoscaler.Fsm.Operations.{start_from_event, follow_job, tick, start_node_op}
use homelab_autoscaler.Fsm.Machine.{Sys}
use homelab_autoscaler.Fsm.Operations.Rests.{Completes, start_node_rests}
use homelab_autoscaler.Api.{starting_up}
use homelab_autoscaler.Api.Client.{time_now}
use homelab_autoscaler.Fsm.Events.{operation_scale_up, get_destination_state}
use homelab_autoscaler.Fsm.Machine.{
  new_node_state_machine, update_node_progress, with_progress, add_node_condition, with_condition,
  state_of_progress,
}
use homelab_autoscaler.Fsm.Machine.Hooks.{
  before_event, before_start_node, enter_state, enter_starting_up, after_event,
}
use homelab_autoscaler.Fsm.Coordination.{
  acquire_lock, refuse_if_held, check_lock, try_acquire, with_lock,
}
use homelab_autoscaler.Fsm.KubeNodes.{remove_cluster_autoscaler_taint}
use homelab_autoscaler.Fsm.Jobs.{cleanup_pending_jobs, create_startup_job, create_job, job_for}
use homelab_autoscaler.Fsm.Operations.Guards.{Locked, start_node-Locked}
use homelab_autoscaler.Samples.Server.{server_laws}
use homelab_autoscaler.Prelude.Lists.{All}
use homelab_autoscaler.Fsm.Operations.Lives.{starts}
use homelab_autoscaler.Fsm.Operations.Fleets.{
  Fleet, made_for, after_act, SoundMember, begun, then_turn, makes, acts, Turns-Sound,
}
use homelab_autoscaler.Samples.World.{Cluster, server, asleep, cluster_of}
use homelab_autoscaler.Samples.Words.{words}
use homelab_autoscaler.Samples.Machines.{looplab, looplab_laws, system_of}

abbrev started : Sys Cluster
started = (start_node_op server words "node-controller" 50 looplab (system_of asleep)).1

started_ok : (start_node_op server words "node-controller" 50 looplab (system_of asleep)).0 ≡ ok tt
unfolding start_node_op get_destination_state new_node_state_machine before_event before_start_node
    acquire_lock refuse_if_held check_lock try_acquire remove_cluster_autoscaler_taint
    cleanup_pending_jobs time_now with_lock enter_state enter_starting_up update_node_progress
    with_progress add_node_condition with_condition after_event create_startup_job create_job
    job_for follow_job start_from_event state_of_progress
started_ok = refl

start_node_rests_example :
    Completes server words "node-controller" 50 looplab
      (looplab_laws "node-controller" 50)
      (system_of asleep)
      started
      (tick ∷ tick ∷ [])
      []
start_node_rests_example =
    start_node_rests server words "node-controller" 50 looplab (looplab_laws "node-controller" 50)
      (tick ∷ tick ∷ []) [] (system_of asleep) started (ap (λ r. (r, started)) started_ok)

start_node-Locked_example :
    Locked server words "node-controller" 50 looplab
      (looplab_laws "node-controller" 50)
      server_laws
      starting_up
      operation_scale_up
      (create_startup_job server words)
      (system_of asleep)
      (remove_cluster_autoscaler_taint server "metal"
        (cleanup_pending_jobs server words asleep "metal" (cluster_of asleep)).1).1
      started
unfolding new_node_state_machine
start_node-Locked_example =
    start_node-Locked server words "node-controller" 50 looplab (looplab_laws "node-controller" 50)
      server_laws (system_of asleep) started (ap (λ r. (r, started)) started_ok)

-- The node is reconciled: a machine is made for it and started, and then another is made for it.
abbrev reconciled : Fleet Cluster
reconciled = record {
  members = made_for asleep ∷ after_act (made_for asleep) started ∷ [];
  world = started.world;
}

Turns-Sound_example : All SoundMember reconciled.members
unfolding state_of_progress new_node_state_machine
Turns-Sound_example =
    Turns-Sound server words "node-controller" 50 looplab (looplab_laws "node-controller" 50)
      (cluster_of asleep) reconciled
      (then_turn
        (then_turn (then_turn begun (makes asleep)) (
          acts [] [] (made_for asleep) started refl
            (starts (ok tt) (ap (λ r. (r, started)) started_ok))))
        (makes asleep))
