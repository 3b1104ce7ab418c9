-- ===== src/Samples/Repeating.antt =====
-- The sample server with the conditions of a Node as a map by type, and a condition that is added twice.
use homelab_autoscaler.Prelude.{◌≡◌, refl, Bool, true, false, not, ◌&&◌, [], ◌∷◌}
use homelab_autoscaler.Action.{ok}
use homelab_autoscaler.Api.{Node, Condition}
use homelab_autoscaler.Api.Client.{Client}
use homelab_autoscaler.Api.Server.{has_repeat, StatusLaws, WriteLaws}
use homelab_autoscaler.Fsm.Machine.{add_node_condition}
use homelab_autoscaler.Fsm.Machine.Conditions.{Added, condition_once}
use homelab_autoscaler.Samples.World.{Cluster, server, asleep, accepts, put}
use homelab_autoscaler.Samples.Server.{put_keeps, write_laws}
use homelab_autoscaler.Samples.Machines.{system_of}

abbrev strict_server : Client Cluster
strict_server = record server {
  update_node_status = λ n w. put (not (has_repeat n.status.conditions) && accepts w n) n w;
}

put_strict :
    (repeats accepted : Bool) (n m : Node) (w v : Cluster)
    → put (not repeats && accepted) n w ≡ (ok m, v)
    → repeats ≡ false
put_strict true accepted n m w v h = absurd (cc)
put_strict false accepted n m w v h = refl

strict_laws : StatusLaws strict_server
strict_laws = record {
  repeat_refused = λ n m w v h. put_strict (has_repeat n.status.conditions) (accepts w n) n m w v h;
  retry_node_last = λ f w. (w, refl);
}

strict_writes : WriteLaws strict_server
strict_writes = record {
  update_node_keeps = write_laws.update_node_keeps;
  update_status_keeps =
      λ n m w v h. (put_keeps (not (has_repeat n.status.conditions) && accepts w n) n m w v h).1;
}

abbrev ready_now : Condition
ready_now = record {
  kind = "Ready";
  status = true;
  last_transition_time = 90_000_000_000;
  reason = "NodeReady";
}

abbrev was_ready : Node
was_ready = record asleep { status = record asleep.status { conditions = ready_now ∷ [] } }

condition_once_example :
    Added strict_server strict_laws strict_writes ready_now
      (system_of was_ready)
      (add_node_condition strict_server ready_now (system_of was_ready)).1
condition_once_example =
    condition_once strict_server strict_laws strict_writes ready_now (system_of was_ready)
