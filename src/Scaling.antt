-- ===== src/Scaling.antt =====
-- How the gRPC server (internal/grpcserver/server.go) and the node controller
-- (internal/controller/infra/node_controller.go) work together: the server only writes to Node
-- resources, and the controller acts on what it finds there.
use homelab_autoscaler.Prelude.{◌⊎◌, ℕ, String, ◌≡◌, true, false, List, [], ◌∷◌, ◌++◌, ap, Bool}
use homelab_autoscaler.Prelude.Int.{ℤ}
use mathlib.Core.List.{Perm}
use homelab_autoscaler.Prelude.Lists.{All, select}
use homelab_autoscaler.Action.{Error, err, ok}
use homelab_autoscaler.Api.{Job, Node, NodeStatus, shutting_down, minute}
use homelab_autoscaler.Api.Text.{Texts}
use homelab_autoscaler.Api.Client.{Client, context_over}
use homelab_autoscaler.Api.Server.{WriteLaws}
use homelab_autoscaler.Fsm.Events.{State, is_transitional_state}
use homelab_autoscaler.Fsm.Coordination.{node_controller_owner}
use homelab_autoscaler.Fsm.Machine.{Sys, set_current, state_of_progress}
use homelab_autoscaler.Fsm.Machine.Engine.{Engine, EngineLaws}
use homelab_autoscaler.Fsm.Machine.Hooks.{get_fsm_callbacks}
use homelab_autoscaler.Fsm.Operations.{Wake, tick, deadline, monitor_job_completion}
use homelab_autoscaler.Fsm.Operations.Follows.{Concluded}
use homelab_autoscaler.Fsm.Operations.Settles.{state_of}
use homelab_autoscaler.Grpc.Sizes.{is_booting, set_progress, node_group_decrease_target_size}
use homelab_autoscaler.Grpc.Sizes.Decrease.{SortLaws, decrease-Decreased}
use homelab_autoscaler.Grpc.Sizes.Shrinks.{AllStored, Runs-Stored}
use homelab_autoscaler.Controller.Nodes.{drive, fresh_system, handle_state_transitions}
use homelab_autoscaler.Controller.Nodes.Stuck.{transition_never_forced}

module _ {W : Type 0} (c : Client W) (t : Texts) (fuel : ℕ) (e : Engine (Sys W))
    (laws : EngineLaws e state_of set_current (get_fsm_callbacks c t node_controller_owner fuel))
    (writes : WriteLaws c) where
  -- What a reconciliation makes of a node: either it takes the machine to `d` with its job recorded
  -- and one monitor, on that job, which by the end of the job timeout has taken the machine where the job
  -- led; or it fails.
  abbrev pub Moves : List Wake → List Wake → State → Node → W → Type 0
  Moves before after d node w =
      ((u : Sys W) × (job : Job) × (drive c t fuel e node (fresh_system c t fuel e node w)
          ≡ (ok 0, u))
        × (state_of u ≡ d)
        × (u.machine.current_job ≡ job.name)
        × (u.monitors ≡ job.name ∷ [])
        × ((v : Sys W) × (monitor_job_completion c t node_controller_owner fuel e job.name
                (before ++ deadline ∷ after) u
              ≡ (ok true, v))
            × Concluded c t node_controller_owner fuel e laws job.name
                (tick ∷ before ++ deadline ∷ after) u v))
      ⊎ ((x : Error) × (u : Sys W) × (drive c t fuel e node (fresh_system c t fuel e node w)
            ≡ (err x, u)))

  module _ (sort_slice : (Node → Node → Bool) → List Node → List Node) (later : W) where
    -- The controller only waits for the node.
    abbrev pub Waits : Node → Type 0
    Waits m = handle_state_transitions c t fuel e m later ≡ (ok minute, later)

    All-wait :
        (nodes marked : List Node) (w v : W) → AllStored c nodes marked w v → All Waits marked
    unfolding is_transitional_state state_of_progress
    All-wait [] [] w v h = tt
    All-wait [] (m ∷ marked) w v h = absurd h
    All-wait (n ∷ nodes) [] w v h = absurd h
    All-wait (n ∷ nodes) (m ∷ marked) w v (u, (x, updated, _, written), rest) =
        let status =
          writes.update_status_keeps (set_progress updated shutting_down) m x u written in
        (
          transition_never_forced c t fuel e laws m later (
              ap (λ (s : NodeStatus). is_transitional_state (state_of_progress s.progress)) status),
          All-wait nodes marked u v rest,
        )

    -- All that a decrease does, from the listing of the group to its end: of the booting nodes a part
    -- is stored, one after the other and nothing else, and the controller waits for each.
    abbrev pub LeftWaiting : String → W → W → Type 0
    LeftWaiting id w v =
        (u1 u2 : W) × (nodes down rest marked : List Node) × (context_over c w ≡ (ok false, u1))
        × (c.list_group_nodes id u1 ≡ (ok nodes, u2))
        × Perm (down ++ rest) (select is_booting nodes)
        × AllStored c down marked u2 v
        × All Waits marked

    -- A decrease starts no shutdown: with an engine, a sort and an API server that behave as
    -- documented, a decrease that succeeds has listed the group, and from there on it has written
    -- nothing but booting nodes of it, each with the desired power state `off` and then the progress
    -- `shuttingdown`; and whenever the controller handles the transitions of what was stored last for
    -- one of them, it changes nothing, creates no job, and only asks to be called again in a minute.
    pub decrease-Waits :
        (sorts : SortLaws sort_slice) (id : String) (delta : ℤ) (w v : W)
        → node_group_decrease_target_size c sort_slice id delta w ≡ (ok tt, v)
        → LeftWaiting id w v
    decrease-Waits sorts id delta w v h =
        let (u1, u2, nodes, down, rest, context, listed, same, _, _, runs) =
          decrease-Decreased c sort_slice sorts id delta w v h in
        let (marked, stored) = Runs-Stored c sort_slice down runs in
        (
          u1,
          u2,
          nodes,
          down,
          rest,
          marked,
          context,
          listed,
          same,
          stored,
          All-wait down marked u2 v stored,
        )
