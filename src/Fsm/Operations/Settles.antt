-- ===== src/Fsm/Operations/Settles.antt =====
-- What an event does to the state machine, with the hooks of the program and an engine that behaves
-- as documented; and what the start and the shutdown of a node leave behind.
use homelab_autoscaler.Prelude.{
  ℕ, String, ◌≡◌, refl, ◌⊎◌, inl, inr, true, Option, some, List, [], ◌∷◌, ◌++◌, arith, ◌∙◌, sym, ap,
  is_some, Option-cases, subst,
}
use homelab_autoscaler.Action.{
  Act, Result, ok, err, Error, failure, wrapped, wrap, attempt, continue, caught, ◌>>=◌, ◌>>◌,
}
use homelab_autoscaler.Api.{Node, Job, shutting_down, shutdown, starting_up, ready}
use homelab_autoscaler.Api.Text.{Texts}
use homelab_autoscaler.Api.Client.{Client, time_now}
use homelab_autoscaler.Fsm.Events.{
  State, Event, start_node, shutdown_node, job_failed, get_destination_state, is_stable_state,
  is_transitional_state,
}
use homelab_autoscaler.Fsm.Jobs.{create_startup_job, create_shutdown_job, cleanup_pending_jobs}
use homelab_autoscaler.Fsm.KubeNodes.{set_node_unschedulable, remove_cluster_autoscaler_taint}
use homelab_autoscaler.Fsm.Machine.{
  BackoffStrategy, Machine, Sys, back, call, get_machine, set_current,
}
use homelab_autoscaler.Fsm.Machine.Engine.{Engine, EngineLaws}
use homelab_autoscaler.Fsm.Machine.Hooks.{before_event, get_fsm_callbacks}
use homelab_autoscaler.Fsm.Machine.Hooks.Steady.{Steady-after, enter_backoff, before_keeps}
use homelab_autoscaler.Fsm.Operations.{
  fire, follow_job, start_node_op, start_from_event, shutdown_node_op, shutdown_from_event,
}

abbrev pub state_of : {W : Type 0} → Sys W → State
state_of s = s.machine.current

module _ {W : Type 0} (c : Client W) (t : Texts) (owner : String) (fuel : ℕ) (e : Engine (Sys W))
    (laws : EngineLaws e state_of set_current (get_fsm_callbacks c t owner fuel)) where
  -- The system settled in the state `d`, with the monitors as they were: a backoff runs exactly if
  -- `d` is transitional.
  abbrev pub Settled : Sys W → State → Sys W → Type 0
  Settled s d u =
      (state_of u ≡ d)
      × (u.monitors ≡ s.monitors)
      × (is_some u.machine.backoff ≡ is_transitional_state d)

  pub destination_named :
      (s d : State) (v : Event)
      → get_destination_state s v ≡ some d
      → (is_stable_state d ≡ true) ⊎ (is_transitional_state d ≡ true)
  unfolding get_destination_state is_stable_state is_transitional_state
  destination_named s d v h = ground arith

  -- With an engine that behaves as documented, an event that the diagram allows and whose before
  -- hook succeeds always takes place: the machine is then in the destination, with a backoff
  -- exactly if that is transitional, and no monitor has been started.
  pub fire-Settled :
      (v : Event) (d : State) (s s1 : Sys W)
      → get_destination_state (state_of s) v ≡ some d
      → before_event c t owner fuel v s ≡ (ok tt, s1)
      → (u : Sys W) × (fire c t owner fuel e v s ≡ (ok tt, u)) × Settled s d u
  fire-Settled v d s s1 h b =
      let same_monitors : s1.monitors ≡ s.monitors =
        sym (ap (λ (r : Result Unit × Sys W). r.1.monitors) b)
        ∙ (before_keeps c t owner fuel v s).1 in
      let (s2, entered, course, backoff) =
        enter_backoff c t owner fuel d (set_current d s1) (destination_named (state_of s) d v h) in
      let (s3, ran, course', kept) = (Steady-after c t owner fuel v d).at s2 in
      (
        s3,
        laws.done v d s s1 s2 s3 h b entered ran,
        (
          course'.0 ∙ course.0,
          course'.1 ∙ course.1 ∙ same_monitors,
          ap (λ (o : Option BackoffStrategy). is_some o) kept ∙ backoff,
        ),
      )

  -- The common shape of `StartNode` and `ShutdownNode` from their event on.
  abbrev launch : Event → (Node → Act W Job) → String → Act (Sys W) Unit
  launch v create text = do
    wrap "FSM transition failed" (fire c t owner fuel e v)
    nm ← get_machine
    job ← attempt (call (create nm.node))
    follow_job c t owner fuel e text job

  -- All or nothing: either the operation began in `origin`, and the machine is in `d` with a backoff
  -- running, its job recorded and one monitor started, for that job; or it failed, and the machine is
  -- in the state in which it was, with no monitor started.
  abbrev pub Outcome : State → State → Sys W → Result (Unit {0}) × Sys W → Type 0
  Outcome origin d s r =
      ((u : Sys W) × (job : Job) × (r ≡ (ok tt, u))
        × (state_of s ≡ origin)
        × (state_of u ≡ d)
        × (u.machine.current_job ≡ job.name)
        × (u.monitors ≡ s.monitors ++ job.name ∷ [])
        × (is_some u.machine.backoff ≡ is_transitional_state d))
      ⊎ ((x : Error) × (u : Sys W) × (r ≡ (err x, u))
          × (state_of u ≡ state_of s)
          × (u.monitors ≡ s.monitors))

  followed :
      (origin d : State) (text : String) (s u : Sys W)
      → get_destination_state d job_failed ≡ some origin
      → state_of s ≡ origin
      → Settled s d u
      → (r : Result Job × W)
      → Outcome origin d s (continue (caught (back u r)) (follow_job c t owner fuel e text))
  unfolding follow_job time_now
  followed origin d text s u rollback at (there, monitors, backoff) (ok job, w) = inl (
    record u {
      machine = record u.machine { current_job = job.name; job_start_time = (c.now w).0 };
      monitors = u.monitors ++ job.name ∷ [];
      world = (c.now w).1;
    },
    job,
    refl,
    at,
    there,
    refl,
    ap (λ (l : List String). l ++ job.name ∷ []) monitors,
    backoff,
  )
  followed origin d text s u rollback at (there, monitors, backoff) (err x, w) =
      let failed : Sys W = record u { world = w } in
      let (v, ran, (there', monitors', _)) =
        fire-Settled job_failed origin failed failed (rw there rollback)
          (unfold before_event in refl) in
      inr (wrapped text x, v, rw ran, there' ∙ sym at, monitors' ∙ monitors)

  module _ (v : Event) (origin d : State) (create : Node → Act W Job) (text : String)
      (only : (s d' : State) → get_destination_state s v ≡ some d' → (s ≡ origin) × (d' ≡ d))
      (rollback : get_destination_state d job_failed ≡ some origin) where
    hooked :
        (s : Sys W) (d' : State) (r : Result Unit × Sys W)
        → get_destination_state (state_of s) v ≡ some d'
        → before_event c t owner fuel v s ≡ r
        → Outcome origin d s (launch v create text s)
    hooked s d' (ok _, s1) h b =
        let (u, ran, there) = fire-Settled v d' s s1 h b in
        let settled : Settled s d u = subst (λ x. Settled s x u) (only (state_of s) d' h).1 there in
        rw ran (
          followed origin d text s u rollback (only (state_of s) d' h).0 settled
            (create u.machine.node u.world))
    hooked s d' (err x, s1) h b =
        let (machine, monitors) = before_keeps c t owner fuel v s in
        inr (
          wrapped "FSM transition failed" (wrapped "transition canceled" x),
          s1,
          rw (laws.cancelled v d' s s1 x h b),
          ap (λ (m : Machine). m.current)
              (sym (ap (λ (r : Result Unit × Sys W). r.1.machine) b) ∙ machine),
          sym (ap (λ (r : Result Unit × Sys W). r.1.monitors) b) ∙ monitors,
        )

    launch-Outcome : (s : Sys W) → Outcome origin d s (launch v create text s)
    launch-Outcome s = elim (Option-cases (get_destination_state (state_of s) v)) [
      | inl h ↦ inr (
        wrapped "FSM transition failed" (failure "event inappropriate in current state"),
        s,
        rw (laws.refused v s h),
        refl,
        refl,
      )
      | inr (d', h) ↦ hooked s d' (before_event c t owner fuel v s) h refl
    ]

  pub start_only :
      (s d : State)
      → get_destination_state s start_node ≡ some d
      → (s ≡ shutdown) × (d ≡ starting_up)
  unfolding get_destination_state
  start_only s d h = ground arith

  shutdown_only :
      (s d : State)
      → get_destination_state s shutdown_node ≡ some d
      → (s ≡ ready) × (d ≡ shutting_down)
  unfolding get_destination_state
  shutdown_only s d h = ground arith

  -- With an engine that behaves as documented, `StartNode` is all or nothing: it takes a machine
  -- that is shut down to `startingup`, with a backoff, its job recorded and one monitor on it, or
  -- it fails and leaves the machine in the state in which it was, with no monitor started; so too
  -- when the job cannot be created after the transition.
  pub start_node-Outcome :
      (s : Sys W) → Outcome shutdown starting_up s (start_node_op c t owner fuel e s)
  unfolding start_node_op start_from_event
  start_node-Outcome s =
      launch-Outcome start_node shutdown starting_up (create_startup_job c t)
        "failed to create startup job" start_only (unfold get_destination_state in refl)
        (record s {
          world =
              (remove_cluster_autoscaler_taint c s.machine.node.spec.kubernetes_node_name
                (cleanup_pending_jobs c t s.machine.node s.machine.node.spec.kubernetes_node_name
                  s.world).1).1;
        })

  -- With an engine that behaves as documented, `ShutdownNode` is all or nothing: it takes a
  -- machine that is `ready` to `shuttingdown`, with a backoff, its job recorded and one monitor on
  -- it, or it fails and leaves the machine in the state in which it was, with no monitor started;
  -- so too when the job cannot be created after the transition.
  pub shutdown_node-Outcome :
      (s : Sys W) → Outcome ready shutting_down s (shutdown_node_op c t owner fuel e s)
  unfolding shutdown_node_op shutdown_from_event
  shutdown_node-Outcome s =
      launch-Outcome shutdown_node ready shutting_down (create_shutdown_job c t)
        "failed to create shutdown job" shutdown_only (unfold get_destination_state in refl)
        (record s {
          world =
              (set_node_unschedulable c s.machine.node.spec.kubernetes_node_name
                (cleanup_pending_jobs c t s.machine.node s.machine.node.spec.kubernetes_node_name
                  s.world).1).1;
        })
