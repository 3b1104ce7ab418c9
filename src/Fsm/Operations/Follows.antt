-- ===== src/Fsm/Operations/Follows.antt =====
-- How a transition comes to an end: the monitor of its job (`monitorJobCompletion`) and the events
-- that it fires, beside what there was to see of the job.
use homelab_autoscaler.Prelude.{
  ℕ, String, ◌≡◌, refl, ◌⊎◌, inl, inr, Bool, true, false, some, is_some, List, [], ◌∷◌, ◌++◌, ◌∙◌,
  if◌then◌else◌,
}
use homelab_autoscaler.Action.{Act, Result, ok, err, pure, continue}
use homelab_autoscaler.Api.{Job, Key, Progress, shutdown, starting_up, ready, shutting_down}
use homelab_autoscaler.Api.Text.{Texts}
use homelab_autoscaler.Api.Client.{Client}
use homelab_autoscaler.Fsm.Events.{
  State, Event, job_completed, job_failed, job_timeout, force_cleanup, get_destination_state,
  is_stable_state, is_transitional_state,
}
use homelab_autoscaler.Fsm.Events.Diagram.{Transition, destination-Transition}
use homelab_autoscaler.Fsm.Operations.Watches.{
  Unfinished, Watched, succeeds, fails, goes_on, runs_out, verdict_cases,
}
use homelab_autoscaler.Fsm.Machine.{Sys, set_current}
use homelab_autoscaler.Fsm.Machine.Engine.{Engine, EngineLaws}
use homelab_autoscaler.Fsm.Machine.Hooks.{before_event, get_fsm_callbacks}
use homelab_autoscaler.Fsm.Operations.{
  Wake, tick, deadline, fire, act_on, look, monitor_loop, monitor_job_completion, verdict_of,
}
use homelab_autoscaler.Fsm.Operations.Settles.{state_of, fire-Settled}

-- The events that end a transition.
pub data Ending : Event → Type 0 where
  by_success : Ending job_completed
  by_failure : Ending job_failed
  by_timeout : Ending job_timeout
  by_force : Ending force_cleanup

rest_of :
    (s : State) (v : Event)
    → is_transitional_state s ≡ true
    → Ending v
    → (d : State) × (get_destination_state s v ≡ some d)
      × (is_stable_state d ≡ true)
      × (is_transitional_state d ≡ false)
unfolding get_destination_state is_stable_state is_transitional_state
rest_of starting_up _ h by_success = (ready, refl, refl, refl)
rest_of starting_up _ h by_failure = (shutdown, refl, refl, refl)
rest_of starting_up _ h by_timeout = (shutdown, refl, refl, refl)
rest_of starting_up _ h by_force = (shutdown, refl, refl, refl)
rest_of shutting_down _ h by_success = (shutdown, refl, refl, refl)
rest_of shutting_down _ h by_failure = (ready, refl, refl, refl)
rest_of shutting_down _ h by_timeout = (ready, refl, refl, refl)
rest_of shutting_down _ h by_force = (shutdown, refl, refl, refl)
rest_of ready v h x = absurd (cc)
rest_of shutdown v h x = absurd (cc)
rest_of (Progress.unnamed _) v h x = absurd (cc)

-- At rest in `d`: it is stable, and there is no backoff; no monitor was started on the way from `s`.
abbrev pub Rested : {W : Type 0} → Sys W → State → Sys W → Type 0
Rested s d u =
    (state_of u ≡ d)
    × (is_stable_state d ≡ true)
    × (is_some u.machine.backoff ≡ false)
    × (u.monitors ≡ s.monitors)

abbrev pub job_key : {W : Type 0} → String → Sys W → Key
job_key name s = record { name = name; namespace = s.machine.node.namespace }

module _ {W : Type 0} (c : Client W) (t : Texts) (owner : String) (fuel : ℕ) (e : Engine (Sys W))
    (laws : EngineLaws e state_of set_current (get_fsm_callbacks c t owner fuel)) where
  -- The machine has followed its job from `s` to `u`: what was seen of the job at the wakes calls for an
  -- event, and that event alone has taken it along its edge of the state diagram, to rest.
  abbrev pub Concluded : String → List Wake → Sys W → Sys W → Type 0
  Concluded name wakes s u =
      (v : W) × (x : Event) × (d : State) × Watched c (job_key name s) wakes s.world v x
      × Transition (state_of s) x d
      × (fire c t owner fuel e x (record s { world = v }) ≡ (ok tt, u))
      × Rested s d u

  no_guard : {v : Event} (s : Sys W) → Ending v → before_event c t owner fuel v s ≡ (ok tt, s)
  unfolding before_event
  no_guard s by_success = refl
  no_guard s by_failure = refl
  no_guard s by_timeout = refl
  no_guard s by_force = refl

  -- With an engine that behaves as documented, each of the four events that end a transition takes
  -- place in both transitional states, and brings the machine to rest.
  pub Ending-rests :
      (x : Event) (s : Sys W)
      → is_transitional_state (state_of s) ≡ true
      → Ending x
      → (u : Sys W) × (d : State) × Transition (state_of s) x d
        × (fire c t owner fuel e x s ≡ (ok tt, u))
        × Rested s d u
  Ending-rests x s h ending =
      let (d, there, stable, over) = rest_of (state_of s) x h ending in
      let (u, ran, (at, monitors, backoff)) =
        fire-Settled c t owner fuel e laws x d s s there (no_guard s ending) in
      (
        u,
        d,
        (destination-Transition (state_of s) x d).0 there,
        ran,
        (at, stable, backoff ∙ over, monitors),
      )

  ends_by :
      (name : String) (wakes : List Wake) (x : Event) (s : Sys W) (v : W)
      → is_transitional_state (state_of s) ≡ true
      → Ending x
      → Watched c (job_key name s) wakes s.world v x
      → (u : Sys W) × (fire c t owner fuel e x (record s { world = v }) ≡ (ok tt, u))
        × Concluded name wakes s u
  ends_by name wakes x s v h ending watched =
      let (u, d, edge, ran, rested) = Ending-rests x (record s { world = v }) h ending in
      (u, ran, (v, x, d, watched, edge, ran, rested))

  -- After a look at the job: the monitor is done, or the job is unfinished and nothing has changed.
  abbrev Looked : String → List Wake → Sys W → Result Bool × Sys W → Type 0
  Looked name wakes s r =
      ((u : Sys W) × (r ≡ (ok true, u)) × Concluded name (tick ∷ wakes) s u)
      ⊎ ((answer : Result Job) × (v : W) × (r ≡ (ok false, record s { world = v }))
          × (c.get_job (job_key name s) s.world ≡ (answer, v))
          × Unfinished answer)

  seen :
      (name : String) (wakes : List Wake) (s : Sys W) (answer : Result Job × W)
      → is_transitional_state (state_of s) ≡ true
      → c.get_job (job_key name s) s.world ≡ answer
      → Looked name wakes s
          (act_on c t owner fuel e (verdict_of answer.0) (record s { world = answer.1 }))
  unfolding act_on
  seen name wakes s (err x, v) h got = inr (err x, v, unfold verdict_of in refl, got, tt)
  seen name wakes s (ok job, v) h got = elim (verdict_cases job) [
    | inl (verdict, positive) ↦
        let (u, ran, concluded) =
          ends_by name (tick ∷ wakes) job_completed s v h by_success (succeeds job got positive) in
        inl (u, rw (verdict, ran) refl, concluded)
    | inr (inl (verdict, none_yet, positive)) ↦
        let (u, ran, concluded) =
          ends_by name (tick ∷ wakes) job_failed s v h by_failure
            (fails job got none_yet positive) in
        inl (u, rw (verdict, ran) refl, concluded)
    | inr (inr (verdict, none_yet, none_failed)) ↦
        inr (ok job, v, rw verdict refl, got, (none_yet, none_failed))
  ]

  look-Looked :
      (name : String) (wakes : List Wake) (s : Sys W)
      → is_transitional_state (state_of s) ≡ true
      → Looked name wakes s (look c t owner fuel e name s)
  unfolding look
  look-Looked name wakes s h = seen name wakes s (c.get_job (job_key name s) s.world) h refl

  -- The rest of the monitor after a look, given what the loop does from any world.
  after_look :
      (name : String) (wakes : List Wake) (s : Sys W) (r : Result Bool × Sys W)
      (rest : Act (Sys W) Bool)
      → Looked name wakes s r
      → ((v : W)
          → (u : Sys W) × (rest (record s { world = v }) ≡ (ok true, u))
            × Concluded name wakes (record s { world = v }) u)
      → (u : Sys W) × (continue r (λ b. if b then pure true else rest) ≡ (ok true, u))
        × Concluded name (tick ∷ wakes) s u
  after_look name wakes s r rest (inl (u, ran, concluded)) later = (u, rw ran refl, concluded)
  after_look name wakes s r rest (inr (answer, v, ran, got, unfinished)) later =
      let (u, ended, (z, x, d, watched, edge, fired, rested)) = later v in
      (u, rw ran ended, (z, x, d, goes_on answer got unfinished watched, edge, fired, rested))

  loop_follows :
      (name : String) (before after : List Wake) (s : Sys W)
      → is_transitional_state (state_of s) ≡ true
      → (u : Sys W) × (monitor_loop c t owner fuel e name (before ++ deadline ∷ after) s
          ≡ (ok true, u))
        × Concluded name (before ++ deadline ∷ after) s u
  unfolding monitor_loop
  loop_follows name [] after s h =
      let (u, ran, concluded) = ends_by name _ job_timeout s s.world h by_timeout runs_out in
      (u, rw ran refl, concluded)
  loop_follows name (deadline ∷ before) after s h =
      let (u, ran, concluded) = ends_by name _ job_timeout s s.world h by_timeout runs_out in
      (u, rw ran refl, concluded)
  loop_follows name (tick ∷ before) after s h =
      after_look name _ s (look c t owner fuel e name s) _ (look-Looked name _ s h)
        (λ v. loop_follows name before after (record s { world = v }) h)

  -- The monitor follows the job: with an engine that behaves as documented, the monitor of a machine
  -- in transition returns by the time that the end of the job timeout wakes it. It has read the job at
  -- once and at every tick, up to the first read that found it ended, and has taken the machine to
  -- where the state diagram leads for what it saw: a success, a failure, or the end of the timeout;
  -- there it is stable, with no backoff and no further monitor.
  pub monitor_follows :
      (name : String) (before after : List Wake) (s : Sys W)
      → is_transitional_state (state_of s) ≡ true
      → (u : Sys W) × (monitor_job_completion c t owner fuel e name (before ++ deadline ∷ after) s
          ≡ (ok true, u))
        × Concluded name (tick ∷ before ++ deadline ∷ after) s u
  unfolding monitor_job_completion
  monitor_follows name before after s h =
      after_look name _ s (look c t owner fuel e name s) _ (look-Looked name _ s h)
        (λ v. loop_follows name before after (record s { world = v }) h)
