-- ===== src/Fsm/Machine.antt =====
-- The state machine object of internal/fsm/types.go with its status updates and hooks
-- (internal/fsm/hooks.go, internal/fsm/node_state_machine.go). The engine of the looplab library is
-- a parameter.
pub mod Engine
pub mod Hooks
pub mod Conditions
use homelab_autoscaler.Prelude.{ℕ, String, Option, none, some, List, [], ◌∷◌, ◌++◌}
use homelab_autoscaler.Prelude.Int.{ℤ, pos}
use homelab_autoscaler.Action.{Act, Result, ok, err, pure, ◌>>=◌}
use homelab_autoscaler.Api.{
  Node, Condition, Progress, shutting_down, shutdown, starting_up, ready, key_of,
}
use homelab_autoscaler.Api.Client.{Client, time_now}
use homelab_autoscaler.Fsm.Events.{State}

pub record BackoffStrategy : Type 0 where
  pub transition_start : ℕ
  pub retry_count : ℕ
  pub max_retries : ℕ

abbrev pub max_retries : ℕ
max_retries = 3

abbrev pub default_job_timeout : ℤ
default_job_timeout = pos 300_000_000_000

abbrev pub default_uncordon_timeout : ℤ
default_uncordon_timeout = pos 90_000_000_000

-- `NodeStateMachine`; `current` is the state that the engine holds.
pub record Machine : Type 0 where
  pub node : Node
  pub current : State
  pub current_job : String
  pub job_timeout : ℤ
  pub job_start_time : ℕ
  pub backoff : Option BackoffStrategy
  pub uncordon_timeout : ℤ

-- The machine with what is outside it, and the jobs whose monitors were started (`go …`).
pub record Sys (W : Type 0) : Type 0 where
  pub machine : Machine
  pub monitors : List String
  pub world : W

-- `getCurrentState`
unfoldable pub state_of_progress : Progress → State
state_of_progress shutdown = shutdown
state_of_progress starting_up = starting_up
state_of_progress ready = ready
state_of_progress shutting_down = shutting_down
state_of_progress (Progress.unnamed _) = shutdown

-- `NewNodeStateMachine`
unfoldable pub new_node_state_machine : Node → Machine
unfolding state_of_progress
new_node_state_machine node = record {
  node = node;
  current = state_of_progress node.status.progress;
  current_job = "";
  job_timeout = default_job_timeout;
  job_start_time = 0;
  backoff = none;
  uncordon_timeout = default_uncordon_timeout;
}

abbrev pub startup_time : Progress → ℕ → Option ℕ → Option ℕ
startup_time starting_up now old = some now
startup_time _ now old = old

abbrev pub shutdown_time : Progress → ℕ → Option ℕ → Option ℕ
shutdown_time shutting_down now old = some now
shutdown_time _ now old = old

unfoldable pub with_progress : Node → Progress → ℕ → Node
with_progress fresh progress now = record fresh {
  status = record fresh.status {
    progress = progress;
    last_startup_time = startup_time progress now fresh.status.last_startup_time;
    last_shutdown_time = shutdown_time progress now fresh.status.last_shutdown_time;
  };
}

unfoldable pub with_condition : Node → Condition → Node
with_condition fresh condition = record fresh {
  status = record fresh.status { conditions = fresh.status.conditions ++ condition ∷ [] };
}

module _ {W : Type 0} where
  abbrev pub back : {A : Type 0} → Sys W → Result A × W → Result A × Sys W
  back s (r, w) = (r, record s { world = w })

  -- A call of the API server from the machine.
  abbrev pub call : {A : Type 0} → Act W A → Act (Sys W) A
  call m s = back s (m s.world)

  abbrev pub modify : (Machine → Machine) → Act (Sys W) Unit
  modify f s = (ok tt, record s { machine = f s.machine })

  abbrev pub get_machine : Act (Sys W) Machine
  get_machine s = (ok s.machine, s)

  abbrev pub set_current : State → Sys W → Sys W
  set_current d s = record s { machine = record s.machine { current = d } }

  -- The node of the machine becomes the stored copy; an error is only logged.
  abbrev pub adopt : Sys W → Result Node × W → Result (Unit {0}) × Sys W
  adopt s (ok fresh, w) =
      (ok tt, record s { machine = record s.machine { node = fresh }; world = w })
  adopt s (err e, w) = (ok tt, record s { world = w })

module _ {W : Type 0} (c : Client W) where
  store_progress : Node → Progress → Act W Node
  store_progress node progress = do
    fresh ← c.get_node (key_of node)
    now ← time_now c
    c.update_node_status (with_progress fresh progress now)

  unfoldable pub update_node_progress : Progress → Act (Sys W) Unit
  unfolding store_progress
  update_node_progress progress s =
      adopt s (c.retry_node_on_conflict (store_progress s.machine.node progress) s.world)

  store_condition : Node → Condition → Act W Node
  store_condition node condition = do
    fresh ← c.get_node (key_of node)
    c.update_node_status (with_condition fresh condition)

  unfoldable pub add_node_condition : Condition → Act (Sys W) Unit
  unfolding store_condition
  add_node_condition condition s =
      adopt s (c.retry_node_on_conflict (store_condition s.machine.node condition) s.world)
