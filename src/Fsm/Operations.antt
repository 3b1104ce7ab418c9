-- ===== src/Fsm/Operations.antt =====
-- The operations of the node state machine (internal/fsm/node_state_machine.go): start, shutdown, the
-- job events, the backoff, and the monitor of a job. Events are fired at the engine, a parameter.
pub mod Delays
pub mod Settles
pub mod Watches
pub mod Follows
pub mod Rests
pub mod Guards
pub mod Keeping
pub mod Lives
pub mod Fleets
pub mod Faults
pub mod Monitors
use homelab_autoscaler.Prelude.{
  ℕ, String, Bool, true, false, ◌||◌, Option, none, some, List, [], ◌∷◌, ◌++◌, ltb, if◌then◌else◌,
}
use homelab_autoscaler.Prelude.Int.{ℤ, pos, sub_ℕ, ltb_ℤ}
use homelab_autoscaler.Action.{
  Act, Result, ok, err, pure, raise, failure, wrapped, wrap, attempt, when, ◌>>=◌, ◌>>◌,
}
use homelab_autoscaler.Api.{Node, Job}
use homelab_autoscaler.Api.Text.{Texts}
use homelab_autoscaler.Api.Client.{Client, time_now}
use homelab_autoscaler.Fsm.Events.{
  Event, start_node, shutdown_node, job_completed, job_failed, job_timeout, force_cleanup,
  get_fsm_transitions,
}
use homelab_autoscaler.Fsm.Jobs.{create_startup_job, create_shutdown_job, cleanup_pending_jobs}
use homelab_autoscaler.Fsm.KubeNodes.{set_node_unschedulable, remove_cluster_autoscaler_taint}
use homelab_autoscaler.Fsm.Machine.{BackoffStrategy, Machine, Sys, call, modify, get_machine}
use homelab_autoscaler.Fsm.Machine.Engine.{Engine}
use homelab_autoscaler.Fsm.Machine.Hooks.{get_fsm_callbacks}

-- The intervals of the two switches over the time that a transition has taken; none is the default
-- branch, after 15 minutes.
unfoldable pub backoff_phase : ℤ → Option ℕ
backoff_phase elapsed =
    if ltb_ℤ (pos 120_000_000_000) elapsed
    then (if ltb_ℤ (pos 600_000_000_000) elapsed
        then (if ltb_ℤ (pos 900_000_000_000) elapsed then none else some 300_000_000_000)
        else some 120_000_000_000)
    else some 30_000_000_000

-- What a look at the job says.
pub data Verdict : Type 0 where
  succeeded failed running : Verdict

unfoldable pub verdict_of : Result Job → Verdict
verdict_of (err e) = running
verdict_of (ok job) =
    if ltb 0 job.succeeded then succeeded else if ltb 0 job.failed then failed else running

-- What wakes the monitor: its ticker, or the end of the job timeout.
pub data Wake : Type 0 where
  tick deadline : Wake

module _ {W : Type 0} (c : Client W) (t : Texts) (owner : String) (fuel : ℕ)
    (e : Engine (Sys W)) where
  abbrev pub fire : Event → Act (Sys W) Unit
  fire = e.fire get_fsm_transitions (get_fsm_callbacks c t owner fuel)

  unfoldable pub can_transition : Event → Act (Sys W) Bool
  can_transition v s = (ok (e.can get_fsm_transitions s.machine.current v), s)

  -- What follows the creation of the job, in `StartNode` and `ShutdownNode`: a rollback, or the
  -- start of the monitor.
  unfoldable pub follow_job : String → Result Job → Act (Sys W) Unit
  follow_job text (err x) = do attempt (fire job_failed); raise (wrapped text x)
  follow_job text (ok job) = do
    now ← call (time_now c)
    modify (λ nm. record nm { current_job = job.name; job_start_time = now })
    λ s. (ok tt, record s { monitors = s.monitors ++ job.name ∷ [] })

  -- From the event on.
  unfoldable pub start_from_event : Act (Sys W) Unit
  unfolding follow_job
  start_from_event = do
    wrap "FSM transition failed" (fire start_node)
    nm ← get_machine
    job ← attempt (call (create_startup_job c t nm.node))
    follow_job "failed to create startup job" job

  unfoldable pub start_node_op : Act (Sys W) Unit
  unfolding start_from_event
  start_node_op = do
    nm ← get_machine
    attempt (call (cleanup_pending_jobs c t nm.node nm.node.spec.kubernetes_node_name))
    attempt (call (remove_cluster_autoscaler_taint c nm.node.spec.kubernetes_node_name))
    start_from_event

  unfoldable pub shutdown_from_event : Act (Sys W) Unit
  unfolding follow_job
  shutdown_from_event = do
    wrap "FSM transition failed" (fire shutdown_node)
    nm ← get_machine
    job ← attempt (call (create_shutdown_job c t nm.node))
    follow_job "failed to create shutdown job" job

  unfoldable pub shutdown_node_op : Act (Sys W) Unit
  unfolding shutdown_from_event
  shutdown_node_op = do
    nm ← get_machine
    attempt (call (cleanup_pending_jobs c t nm.node nm.node.spec.kubernetes_node_name))
    attempt (call (set_node_unschedulable c nm.node.spec.kubernetes_node_name))
    shutdown_from_event

  -- `JobCompleted`, `JobFailed`, `JobTimeout`, `ForceCleanup`
  abbrev pub job_completed_op : Act (Sys W) Unit
  job_completed_op = fire job_completed

  abbrev pub job_failed_op : Act (Sys W) Unit
  job_failed_op = fire job_failed

  abbrev pub job_timeout_op : Act (Sys W) Unit
  job_timeout_op = fire job_timeout

  abbrev pub force_cleanup_op : Act (Sys W) Unit
  force_cleanup_op = fire force_cleanup

  cleanup_unless_phase : Option ℕ → Act (Sys W) ℕ
  cleanup_unless_phase (some interval) = pure interval
  cleanup_unless_phase none = do attempt force_cleanup_op; pure 0

  backoff_of : Option BackoffStrategy → Act (Sys W) ℕ
  unfolding cleanup_unless_phase backoff_phase
  backoff_of none = pure 60_000_000_000
  backoff_of (some b) = do
    now ← call (time_now c)
    cleanup_unless_phase (backoff_phase (sub_ℕ now b.transition_start))

  unfoldable pub calculate_backoff : Act (Sys W) ℕ
  unfolding backoff_of
  calculate_backoff = do nm ← get_machine; backoff_of nm.backoff

  stuck_since : Option BackoffStrategy → Act (Sys W) Bool
  stuck_since none = pure false
  stuck_since (some b) = do
    now ← call (time_now c)
    pure (ltb_ℤ (pos 900_000_000_000) (sub_ℕ now b.transition_start))

  unfoldable pub is_transition_stuck : Act (Sys W) Bool
  unfolding stuck_since
  is_transition_stuck = do nm ← get_machine; stuck_since nm.backoff

  unfoldable pub check_stuck_state : Act (Sys W) Unit
  unfolding is_transition_stuck
  check_stuck_state = do
    stuck ← is_transition_stuck
    when stuck (attempt force_cleanup_op >> pure tt)

  -- One look at the job: whether the monitor is done.
  unfoldable pub act_on : Verdict → Act (Sys W) Bool
  act_on succeeded = do attempt job_completed_op; pure true
  act_on failed = do attempt job_failed_op; pure true
  act_on running = pure false

  unfoldable pub look : String → Act (Sys W) Bool
  unfolding act_on verdict_of
  look job_name = do
    nm ← get_machine
    job ← attempt (call (c.get_job (record { name = job_name; namespace = nm.node.namespace })))
    act_on (verdict_of job)

  -- The `select` loop over what wakes it; false: still waiting when the list ends.
  unfoldable pub monitor_loop : String → List Wake → Act (Sys W) Bool
  unfolding look
  monitor_loop job_name [] = pure false
  monitor_loop job_name (deadline ∷ wakes) = do attempt job_timeout_op; pure true
  monitor_loop job_name (tick ∷ wakes) =
      let again = monitor_loop job_name wakes in
      do finished ← look job_name; if finished then pure true else again

  unfoldable pub monitor_job_completion : String → List Wake → Act (Sys W) Bool
  unfolding monitor_loop
  monitor_job_completion job_name wakes = do
    finished ← look job_name
    if finished then pure true else monitor_loop job_name wakes
