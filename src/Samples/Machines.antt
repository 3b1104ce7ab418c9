-- ===== src/Samples/Machines.antt =====
-- A state machine engine that keeps the documented laws, over the sample cluster.
use homelab_autoscaler.Prelude.{ℕ, String, refl, Option, none, some, [], is_some}
use homelab_autoscaler.Action.{Act, Result, ok, err, failure, wrapped, ◌>>◌}
use homelab_autoscaler.Api.{Node}
use homelab_autoscaler.Fsm.Events.{State, Event, get_destination_state}
use homelab_autoscaler.Fsm.Machine.{Sys, set_current, new_node_state_machine}
use homelab_autoscaler.Fsm.Machine.Engine.{Callbacks, Engine, EngineLaws}
use homelab_autoscaler.Fsm.Machine.Hooks.{get_fsm_callbacks}
use homelab_autoscaler.Fsm.Operations.Settles.{state_of}
use homelab_autoscaler.Samples.World.{Cluster, server, cluster_of}
use homelab_autoscaler.Samples.Words.{words}

abbrev pub fired :
    Callbacks (Sys Cluster)
    → Event
    → State
    → Result (Unit {0}) × Sys Cluster
    → Result (Unit {0}) × Sys Cluster
fired cb v d (ok _, s) = (cb.enter d >> cb.after v d) (set_current d s)
fired cb v d (err x, s) = (err (wrapped "transition canceled" x), s)

abbrev pub fire_at : Callbacks (Sys Cluster) → Event → Option State → Act (Sys Cluster) Unit
fire_at cb v none s = (err (failure "event inappropriate in current state"), s)
fire_at cb v (some d) s = fired cb v d (cb.before v s)

abbrev pub looplab : Engine (Sys Cluster)
looplab = record {
  fire = λ _ cb v s. fire_at cb v (get_destination_state (state_of s) v) s;
  can = λ _ s v. is_some (get_destination_state s v);
}

pub looplab_laws :
    (owner : String) (fuel : ℕ)
    → EngineLaws looplab state_of set_current (get_fsm_callbacks server words owner fuel)
looplab_laws owner fuel = record {
  can_table = λ s v. refl;
  refused = λ v s h. rw h refl;
  cancelled = λ v d s t x h b. rw h (rw b refl);
  done = λ v d s t1 t2 t3 h b n a. rw h (rw b (rw n a));
}

abbrev pub system_of : Node → Sys Cluster
system_of node = record {
  machine = new_node_state_machine node;
  monitors = [];
  world = cluster_of node;
}
