-- ===== src/Samples/Running.antt =====
-- Runs of the state machine and of the controllers on the sample cluster.
use homelab_autoscaler.Prelude.{◌≡◌, ◌≢◌, refl, ◌↔◌, true, some, is_some}
use homelab_autoscaler.Prelude.Int.{pos}
use homelab_autoscaler.Action.{ok}
use homelab_autoscaler.Api.{shutdown, starting_up, ready, shutting_down, on, off, minute}
use homelab_autoscaler.Prelude.Lists.{exists_in}
use homelab_autoscaler.Fsm.Events.{
  State, start_node, job_completed, get_destination_state, is_transitional_state, is_stable_state,
  same_event, validate_event_transition, get_valid_events_for_state, get_operation_for_event,
}
use homelab_autoscaler.Fsm.Events.Diagram.{validity_agrees, valid_alternates}
use homelab_autoscaler.Controller.Transitions.{requeue_phase}
use homelab_autoscaler.Fsm.Machine.{Sys, state_of_progress, new_node_state_machine}
use homelab_autoscaler.Fsm.Machine.Hooks.{before_event}
use homelab_autoscaler.Fsm.Operations.{backoff_phase, fire, start_node_op, shutdown_node_op}
use homelab_autoscaler.Fsm.Operations.Settles.{
  Settled, Outcome, fire-Settled, start_node-Outcome, shutdown_node-Outcome,
}
use homelab_autoscaler.Controller.Nodes.{handle_state_transitions}
use homelab_autoscaler.Controller.Nodes.Stuck.{transition_never_forced}
use homelab_autoscaler.Controller.Transitions.Waits.{phases_agree}
use homelab_autoscaler.Samples.World.{Cluster, server, asleep, awake, cluster_of, node_in}
use homelab_autoscaler.Samples.Words.{words}
use homelab_autoscaler.Samples.Machines.{looplab, looplab_laws, system_of}

start_node-Outcome_example :
    Outcome server words "node-controller" 50 looplab
      (looplab_laws "node-controller" 50)
      shutdown
      starting_up
      (system_of asleep)
      (start_node_op server words "node-controller" 50 looplab (system_of asleep))
start_node-Outcome_example =
    start_node-Outcome server words "node-controller" 50 looplab (looplab_laws "node-controller" 50)
      (system_of asleep)

shutdown_node-Outcome_example :
    Outcome server words "node-controller" 50 looplab
      (looplab_laws "node-controller" 50)
      ready
      shutting_down
      (system_of awake)
      (shutdown_node_op server words "node-controller" 50 looplab (system_of awake))
shutdown_node-Outcome_example =
    shutdown_node-Outcome server words "node-controller" 50 looplab
      (looplab_laws "node-controller" 50) (system_of awake)

fire-Settled_example :
    (u : Sys Cluster) × (fire server words "node-controller" 50 looplab job_completed
        (system_of (node_in on off starting_up))
      ≡ (ok tt, u))
    × Settled server words "node-controller" 50 looplab
        (looplab_laws "node-controller" 50)
        (system_of (node_in on off starting_up))
        ready
        u
unfolding get_destination_state before_event new_node_state_machine
fire-Settled_example =
    fire-Settled server words "node-controller" 50 looplab (looplab_laws "node-controller" 50)
      job_completed ready (system_of (node_in on off starting_up))
      (system_of (node_in on off starting_up)) refl refl

validity_agrees_example :
    (validate_event_transition shutdown start_node
      ≡ is_some (get_destination_state shutdown start_node))
    × (exists_in (λ v. same_event v start_node) (get_valid_events_for_state shutdown)
        ≡ validate_event_transition shutdown start_node)
validity_agrees_example = validity_agrees shutdown start_node

valid_alternates_example :
    (d : State) × (get_destination_state shutdown start_node ≡ some d)
    × (is_stable_state shutdown ≡ is_transitional_state d)
    × (is_transitional_state shutdown ≡ is_stable_state d)
    × (is_stable_state d ≢ is_transitional_state d)
    × ((get_operation_for_event start_node ≢ "") ↔ (is_stable_state shutdown ≡ true))
unfolding validate_event_transition
valid_alternates_example = valid_alternates shutdown start_node refl

phases_agree_example : requeue_phase (pos 700_000_000_000) ≡ backoff_phase (pos 700_000_000_000)
phases_agree_example = phases_agree (pos 700_000_000_000)

transition_never_forced_example :
    handle_state_transitions server words 50 looplab
      (node_in on off starting_up)
      (cluster_of asleep)
    ≡ (ok minute, cluster_of asleep)
unfolding is_transitional_state state_of_progress
transition_never_forced_example =
    transition_never_forced server words 50 looplab (looplab_laws "node-controller" 50)
      (node_in on off starting_up) (cluster_of asleep) refl
