-- ===== src/Fsm/Operations/Rests.antt =====
-- How the transitions that `StartNode` and `ShutdownNode` begin come to an end.
use homelab_autoscaler.Prelude.{
  ℕ, String, ◌≡◌, refl, inl, inr, true, List, [], ◌∷◌, ◌++◌, ◌∙◌, sym, ap, subst,
}
use homelab_autoscaler.Action.{Result, ok}
use homelab_autoscaler.Api.{shutdown, starting_up, ready, shutting_down}
use homelab_autoscaler.Api.Text.{Texts}
use homelab_autoscaler.Api.Client.{Client}
use homelab_autoscaler.Fsm.Events.{State, is_transitional_state}
use homelab_autoscaler.Fsm.Machine.{Sys, set_current}
use homelab_autoscaler.Fsm.Machine.Engine.{Engine, EngineLaws}
use homelab_autoscaler.Fsm.Machine.Hooks.{get_fsm_callbacks}
use homelab_autoscaler.Fsm.Operations.{
  Wake, tick, deadline, monitor_job_completion, start_node_op, shutdown_node_op,
}
use homelab_autoscaler.Fsm.Operations.Settles.{
  state_of, Outcome, start_node-Outcome, shutdown_node-Outcome,
}
use homelab_autoscaler.Fsm.Operations.Follows.{Concluded, monitor_follows}

module _ {W : Type 0} (c : Client W) (t : Texts) (owner : String) (fuel : ℕ) (e : Engine (Sys W))
    (laws : EngineLaws e state_of set_current (get_fsm_callbacks c t owner fuel)) where
  -- Between `s` and `u` one monitor was started, for the job that the machine records; it returns by
  -- the end of the job timeout, and has taken the machine where its job led.
  abbrev pub Completes : Sys W → Sys W → List Wake → List Wake → Type 0
  Completes s u before after =
      (u.monitors ≡ s.monitors ++ u.machine.current_job ∷ [])
      × ((v : Sys W) × (monitor_job_completion c t owner fuel e u.machine.current_job
              (before ++ deadline ∷ after) u
            ≡ (ok true, v))
          × Concluded c t owner fuel e laws u.machine.current_job
              (tick ∷ before ++ deadline ∷ after) u v)

  launched_rests :
      (origin d : State) (before after : List Wake) (s u : Sys W) (r : Result Unit × Sys W)
      → is_transitional_state d ≡ true
      → Outcome c t owner fuel e laws origin d s r
      → r ≡ (ok tt, u)
      → Completes s u before after
  launched_rests origin d before after s u r moving (inl (v, job, ran, _, at, named, begun, _)) h =
      let same : v ≡ u = ap (λ (r : Result Unit × Sys W). r.1) (sym ran ∙ h) in
      subst (λ x. Completes s x before after) same
        (
          begun ∙ ap (λ (j : String). s.monitors ++ j ∷ []) (sym named),
          monitor_follows c t owner fuel e laws v.machine.current_job before after v
              (ap is_transitional_state at ∙ moving),
        )
  launched_rests origin d before after s u r moving (inr (x, v, ran, _, _)) h = absurd (cc)

  -- What `StartNode` begins, its monitor ends: with an engine that behaves as documented, after a
  -- `StartNode` without error the one monitor that it started, for the job that the machine records,
  -- returns by the end of the job timeout. It has read the job at once and at every tick, up to the
  -- first read that found it ended, and has taken the machine to where the state diagram leads for
  -- what it saw: a success, a failure, or the end of the timeout; there it is stable, with no backoff
  -- and no further monitor.
  pub start_node_rests :
      (before after : List Wake) (s u : Sys W)
      → start_node_op c t owner fuel e s ≡ (ok tt, u)
      → Completes s u before after
  start_node_rests before after s u =
      launched_rests shutdown starting_up before after s u _ (unfold is_transitional_state in refl)
        (start_node-Outcome c t owner fuel e laws s)

  -- What `ShutdownNode` begins, its monitor ends: with an engine that behaves as documented, after
  -- a `ShutdownNode` without error the one monitor that it started, for the job that the machine
  -- records, returns by the end of the job timeout, and has taken the machine to where the state
  -- diagram leads for what it saw of the job.
  pub shutdown_node_rests :
      (before after : List Wake) (s u : Sys W)
      → shutdown_node_op c t owner fuel e s ≡ (ok tt, u)
      → Completes s u before after
  shutdown_node_rests before after s u =
      launched_rests ready shutting_down before after s u _ (unfold is_transitional_state in refl)
        (shutdown_node-Outcome c t owner fuel e laws s)
