-- ===== src/Samples/Clashing.antt =====
-- Runs in which locks are in the way or are taken away, and power states that are read back.
use homelab_autoscaler.Prelude.{String, arith, ◌≡◌, refl, [], ◌∷◌, none, some}
use homelab_autoscaler.Prelude.Int.{pos}
use homelab_autoscaler.Action.{Result, ok, err, failure, wrapped}
use homelab_autoscaler.Api.{key_of, PowerState, Node, on, off}
use homelab_autoscaler.Api.Maps.{value_of, set, delete}
use homelab_autoscaler.Api.Client.{time_now}
use homelab_autoscaler.Fsm.Coordination
use homelab_autoscaler.Controller.Cleanup
use homelab_autoscaler.Fsm.Coordination.{
  OperationLock, with_lock, delete_lock, check_lock, timeout_of, times_second, is_expired_at,
  or_new_map,
}
use homelab_autoscaler.Fsm.Machine.{Sys, new_node_state_machine}
use homelab_autoscaler.Fsm.KubeNodes.{remove_cluster_autoscaler_taint}
use homelab_autoscaler.Fsm.Jobs.{cleanup_pending_jobs}
use homelab_autoscaler.Fsm.Operations.{start_node_op}
use homelab_autoscaler.Controller.Cleanup.{cleanup_each, check_operation_lock}
use homelab_autoscaler.Controller.Cleanup.Sweeps.{cleanup_takes_any}
use homelab_autoscaler.Controller.Cleanup.Copies.{copies_agree}
use homelab_autoscaler.Api.Power.{
  power_of_text, unmarshal_json, marshal_json, unmarshal_yaml, marshal_yaml, power_round_trip,
}
use homelab_autoscaler.Fsm.Operations.Guards.{start_node_excluded}
use homelab_autoscaler.Samples.World.{Cluster, server, asleep, awake, cluster_of}
use homelab_autoscaler.Samples.Server.{server_laws, stored}
use homelab_autoscaler.Samples.Words.{words, words_laws}
use homelab_autoscaler.Samples.Machines.{looplab, looplab_laws, system_of}

-- A node that is ready and that the gRPC server holds, and its lock.
abbrev held : Node
held = with_lock words awake "scale-up" "grpc-server" 60_000_000_000 (pos 300_000_000_000)

abbrev held_lock : OperationLock
held_lock = record {
  operation = "scale-up";
  owner = "grpc-server";
  timestamp = 60_000_000_000;
  timeout = pos 300_000_000_000;
}

-- An old copy of that node, with a lock that has expired.
abbrev stale : Node
stale = with_lock words awake "scale-down" "node-controller" 1_000_000_000 (pos 1_000_000_000)

abbrev stale_lock : OperationLock
stale_lock = record {
  operation = "scale-down";
  owner = "node-controller";
  timestamp = 1_000_000_000;
  timeout = pos 1_000_000_000;
}

abbrev swept : Cluster
swept = (cleanup_each server words (stale ∷ []) (cluster_of held)).1

cleanup_takes_any_example :
    (cleanup_each server words (stale ∷ []) (cluster_of held) ≡ (ok tt, swept))
    × (stored swept (key_of stale) ≡ some swept.node)
    × (check_lock words swept.node ≡ none)
unfolding check_operation_lock with_lock value_of set times_second time_now cleanup_each
    Cleanup.is_lock_expired Cleanup.force_release_lock delete delete_lock check_lock is_expired_at
    timeout_of
cleanup_takes_any_example =
    cleanup_takes_any server words server_laws stale held swept.node stale_lock held_lock
      (or_new_map held.annotations) 60_000_000_000 (cluster_of held)
      (record (cluster_of held) { clock = 61_000_000_000 })
      (record (cluster_of held) { clock = 61_000_000_000 }) swept refl refl refl refl refl refl refl
      refl

copies_agree_example :
    (check_operation_lock words held ≡ check_lock words held)
    × (Cleanup.is_lock_expired server words (some held_lock) (cluster_of held)
        ≡ Coordination.is_lock_expired server words "grpc-server"
            (some held_lock)
            (cluster_of held))
    × (Cleanup.force_release_lock server words held (cluster_of held)
        ≡ Coordination.force_release_lock server words "grpc-server" held (cluster_of held))
copies_agree_example =
    copies_agree server words "grpc-server" held (some held_lock) (cluster_of held)

-- A node that another manager has locked, while the machine has a copy from before.
abbrev grabbed : Node
grabbed = with_lock words asleep "scale-up" "grpc-server" 60_000_000_000 (pos 300_000_000_000)

abbrev outdated : Sys Cluster
outdated = record (system_of asleep) { world = cluster_of grabbed }

abbrev prepared : Cluster
prepared =
    (remove_cluster_autoscaler_taint server "metal"
      (cleanup_pending_jobs server words asleep "metal" (cluster_of grabbed)).1).1

start_node_excluded_example : start_node_op server words "node-controller" 50 looplab outdated ≡ (
  err (
      wrapped "FSM transition failed"
        (wrapped "transition canceled" (failure "coordination lock acquired by another process"))),
  record outdated { world = (time_now server prepared).1 },
)
unfolding new_node_state_machine check_lock remove_cluster_autoscaler_taint cleanup_pending_jobs
    with_lock time_now
start_node_excluded_example =
    start_node_excluded server words "node-controller" 50 looplab
      (looplab_laws "node-controller" 50) words_laws server_laws outdated "grpc-server" "scale-up"
      asleep grabbed 60_000_000_000 300 60_000_000_000 prepared (time_now server prepared).1
      (λ p. cc) (λ p. cc) (omega arith) refl refl refl refl refl (omega arith)

-- A format in which a text is its own encoding.
abbrev decode_text : String → Result String
decode_text s = ok s

abbrev encode_text : String → String
encode_text s = s

power_round_trip_example :
    (unmarshal_json decode_text encode_text (marshal_json decode_text encode_text on) ≡ ok on)
    × (unmarshal_yaml decode_text (encode_text (marshal_yaml on)) ≡ ok on)
    × (unmarshal_json decode_text encode_text
          (marshal_json decode_text encode_text (PowerState.unnamed "sleep"))
        ≡ ok (PowerState.unnamed "sleep"))
    × (unmarshal_yaml decode_text (encode_text (marshal_yaml (PowerState.unnamed "sleep")))
        ≡ ok (PowerState.unnamed "sleep"))
    × (unmarshal_json decode_text encode_text (encode_text "true") ≡ ok on)
    × (unmarshal_json decode_text encode_text (encode_text "false") ≡ ok off)
    × (unmarshal_yaml decode_text (encode_text "true") ≡ ok on)
    × (unmarshal_yaml decode_text (encode_text "false") ≡ ok off)
unfolding power_of_text
power_round_trip_example =
    power_round_trip decode_text encode_text decode_text encode_text "true" "sleep" on
      (PowerState.unnamed "sleep") (λ s. refl) (λ s. refl) refl refl
