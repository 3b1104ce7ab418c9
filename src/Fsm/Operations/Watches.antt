-- ===== src/Fsm/Operations/Watches.antt =====
-- What the monitor of a job (`monitorJobCompletion`) gets to see, independent of its code: the reads of
-- the job one after the other, up to the first that finds it ended, or to the end of the job timeout.
use homelab_autoscaler.Prelude.{◌<◌, ◌≡◌, List, ◌∷◌, ◌⊎◌, arith}
use homelab_autoscaler.Action.{Result, ok, err}
use homelab_autoscaler.Api.{Job, Key}
use homelab_autoscaler.Api.Client.{Client}
use homelab_autoscaler.Fsm.Events.{Event, job_completed, job_failed, job_timeout}
use homelab_autoscaler.Fsm.Operations.{succeeded, failed, running, verdict_of, Wake, tick, deadline}

-- The job has neither succeeded nor failed, or could not be read.
abbrev pub Unfinished : Result Job → Type 0
Unfinished (err e) = Unit
Unfinished (ok job) = (job.succeeded ≡ 0) × (job.failed ≡ 0)

-- `Watched wakes w v x`: read at the ticks of `wakes` from the world `w` on, the job calls for the event
-- `x`, in the world `v`.
pub data Watched {W : Type 0} (c : Client W) (key : Key) : List Wake → W → W → Event → Type 0 where
  succeeds :
      {wakes : List Wake} {w v : W} (job : Job)
      → c.get_job key w ≡ (ok job, v)
      → 0 < job.succeeded
      → Watched c key (tick ∷ wakes) w v job_completed
  fails :
      {wakes : List Wake} {w v : W} (job : Job)
      → c.get_job key w ≡ (ok job, v)
      → job.succeeded ≡ 0
      → 0 < job.failed
      → Watched c key (tick ∷ wakes) w v job_failed
  goes_on :
      {wakes : List Wake} {w u v : W} {x : Event} (r : Result Job)
      → c.get_job key w ≡ (r, u)
      → Unfinished r
      → Watched c key wakes u v x
      → Watched c key (tick ∷ wakes) w v x
  runs_out : {wakes : List Wake} {w : W} → Watched c key (deadline ∷ wakes) w w job_timeout

pub verdict_cases :
    (job : Job)
    → ((verdict_of (ok job) ≡ succeeded) × (0 < job.succeeded))
      ⊎ ((verdict_of (ok job) ≡ failed) × (job.succeeded ≡ 0) × (0 < job.failed))
      ⊎ ((verdict_of (ok job) ≡ running) × (job.succeeded ≡ 0) × (job.failed ≡ 0))
unfolding verdict_of
verdict_cases job = ground arith
