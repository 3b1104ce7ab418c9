-- ===== src/Fsm/Operations/Monitors.antt =====
-- The monitor of a job (`monitorJobCompletion`).
use homelab_autoscaler.Prelude.{
  ℕ, String, ◌≡◌, refl, Bool, true, false, List, [], ◌∷◌, ◌++◌, if◌then◌else◌,
}
use homelab_autoscaler.Action.{Act, ok, pure}
use homelab_autoscaler.Api.Text.{Texts}
use homelab_autoscaler.Api.Client.{Client}
use homelab_autoscaler.Fsm.Machine.{Sys}
use homelab_autoscaler.Fsm.Machine.Engine.{Engine}
use homelab_autoscaler.Fsm.Operations.{
  Verdict, succeeded, failed, running, Wake, tick, deadline, act_on, look, monitor_loop,
  monitor_job_completion,
}

module _ {W : Type 0} (c : Client W) (t : Texts) (owner : String) (fuel : ℕ)
    (e : Engine (Sys W)) where
  act_on_answers :
      (v : Verdict) (s : Sys W)
      → (b : Bool) × (u : Sys W) × (act_on c t owner fuel e v s ≡ (ok b, u))
  unfolding act_on
  act_on_answers succeeded s = (true, _, refl)
  act_on_answers failed s = (true, _, refl)
  act_on_answers running s = (false, _, refl)

  look_answers :
      (name : String) (s : Sys W)
      → (b : Bool) × (u : Sys W) × (look c t owner fuel e name s ≡ (ok b, u))
  unfolding look
  look_answers name s = act_on_answers _ _

  unless_finished :
      (b : Bool) (u : Sys W) (rest : Act (Sys W) Bool)
      → (v : Sys W) × (rest u ≡ (ok true, v))
      → (v : Sys W) × ((if b then pure true else rest) u ≡ (ok true, v))
  unless_finished true u rest ended = (u, refl)
  unless_finished false u rest ended = ended

  loop_ends :
      (name : String) (before after : List Wake) (s : Sys W)
      → (u : Sys W) × (monitor_loop c t owner fuel e name (before ++ deadline ∷ after) s
          ≡ (ok true, u))
  unfolding monitor_loop
  loop_ends name [] after s = (_, refl)
  loop_ends name (deadline ∷ before) after s = (_, refl)
  loop_ends name (tick ∷ before) after s =
      let (b, u, h) = look_answers name s in
      let (v, ended) =
        unless_finished b u (monitor_loop c t owner fuel e name (before ++ deadline ∷ after))
          (loop_ends name before after u) in
      (v, rw h ended)

  -- A monitor always ends: whatever the looks at the job answer, errors of the API server and of the
  -- events included, it has returned by the time that the end of the job timeout wakes it.
  pub monitor_ends :
      (name : String) (before after : List Wake) (s : Sys W)
      → (u : Sys W) × (monitor_job_completion c t owner fuel e name (before ++ deadline ∷ after) s
          ≡ (ok true, u))
  unfolding monitor_job_completion
  monitor_ends name before after s =
      let (b, u, h) = look_answers name s in
      let (v, ended) =
        unless_finished b u (monitor_loop c t owner fuel e name (before ++ deadline ∷ after))
          (loop_ends name before after u) in
      (v, rw h ended)
