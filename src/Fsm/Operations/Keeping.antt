-- ===== src/Fsm/Operations/Keeping.antt =====
-- What every operation of internal/fsm/node_state_machine.go leaves true of the state and the backoff of a
-- machine, whatever it returns.
use homelab_autoscaler.Prelude.{
  ℕ, String, ◌≡◌, refl, ◌⊎◌, inl, inr, Bool, true, false, Option, none, some, is_some, List, [],
  ◌∷◌, ap, sym, ◌∙◌, subst, Option-cases, if◌then◌else◌,
}
use homelab_autoscaler.Action.{
  Act, Result, ok, err, Error, continue, pure, raise, attempt, relabelled, wrap, wrapped, when,
  ◌>>=◌, ◌>>◌,
}
use homelab_autoscaler.Api.{Node, Job}
use homelab_autoscaler.Api.Text.{Texts}
use homelab_autoscaler.Api.Client.{Client, time_now}
use homelab_autoscaler.Fsm.Events.{
  State, Event, start_node, shutdown_node, job_completed, job_failed, job_timeout, force_cleanup,
  get_destination_state, is_stable_state, is_transitional_state,
}
use homelab_autoscaler.Fsm.Jobs.{create_startup_job, create_shutdown_job, cleanup_pending_jobs}
use homelab_autoscaler.Fsm.KubeNodes.{set_node_unschedulable, remove_cluster_autoscaler_taint}
use homelab_autoscaler.Fsm.Machine.{BackoffStrategy, Machine, Sys, call, get_machine, set_current}
use homelab_autoscaler.Fsm.Machine.Engine.{Engine, EngineLaws}
use homelab_autoscaler.Fsm.Machine.Hooks.{before_event, get_fsm_callbacks}
use homelab_autoscaler.Fsm.Machine.Hooks.Steady.{before_keeps}
use homelab_autoscaler.Fsm.Operations.{
  Verdict, succeeded, failed, running, Wake, tick, deadline, fire, follow_job, start_node_op,
  start_from_event, shutdown_node_op, shutdown_from_event, act_on, look, monitor_loop,
  monitor_job_completion, check_stuck_state, is_transition_stuck, stuck_since,
}
use homelab_autoscaler.Fsm.Operations.Settles.{state_of, destination_named, fire-Settled}

module _ {W : Type 0} (P : State → Option BackoffStrategy → Type 0) where
  abbrev pub Holds : Sys W → Type 0
  Holds s = P s.machine.current s.machine.backoff

  -- Whatever an action returns, it leaves the predicate true.
  pub record Keeps {A : Type 0} (m : Act (Sys W) A) : Type 0 where
    pub at : (s : Sys W) → Holds s → Holds (m s).1

  Keeps-continue :
      {A B : Type 0} (r : Result A × Sys W) (f : A → Act (Sys W) B)
      → ((a : A) → Keeps (f a))
      → Holds r.1
      → Holds (continue r f).1
  Keeps-continue (ok a, u) f k h = (k a).at u h
  Keeps-continue (err x, u) f k h = h

  Keeps-bind :
      {A B : Type 0} (m : Act (Sys W) A) (f : A → Act (Sys W) B)
      → Keeps m
      → ((a : A) → Keeps (f a))
      → Keeps (m >>= f)
  Keeps-bind m f km kf = record { at = λ s h. Keeps-continue (m s) f kf (km.at s h) }

  Keeps-then :
      {A B : Type 0} (m : Act (Sys W) A) (n : Act (Sys W) B) → Keeps m → Keeps n → Keeps (m >> n)
  Keeps-then m n km kn = record { at = λ s h. Keeps-continue (m s) (λ _. n) (λ _. kn) (km.at s h) }

  Keeps-call : {A : Type 0} (m : Act W A) → Keeps (call m)
  Keeps-call m = record { at = λ s h. h }

  Keeps-pure : {A : Type 0} (a : A) → Keeps (pure a)
  Keeps-pure a = record { at = λ s h. h }

  Keeps-raise : {A : Type 0} (x : Error) → Keeps {A = A} (raise x)
  Keeps-raise x = record { at = λ s h. h }

  Keeps-attempt : {A : Type 0} (m : Act (Sys W) A) → Keeps m → Keeps (attempt m)
  Keeps-attempt m k = record { at = λ s h. k.at s h }

  relabelled_same :
      {A : Type 0} (text : String) (r : Result A × Sys W) → Holds r.1 → Holds (relabelled text r).1
  relabelled_same text (ok a, u) h = h
  relabelled_same text (err x, u) h = h

  Keeps-wrap : {A : Type 0} (text : String) (m : Act (Sys W) A) → Keeps m → Keeps (wrap text m)
  Keeps-wrap text m k = record { at = λ s h. relabelled_same text (m s) (k.at s h) }

  module _ (c : Client W) (t : Texts) (owner : String) (fuel : ℕ) (e : Engine (Sys W))
      (laws : EngineLaws e state_of set_current (get_fsm_callbacks c t owner fuel))
      (entered : (d : State) (o : Option BackoffStrategy)
        → (is_stable_state d ≡ true) ⊎ (is_transitional_state d ≡ true)
        → is_some o ≡ is_transitional_state d
        → P d o) where
    after_guard :
        (v : Event) (d : State) (s : Sys W) (r : Result Unit × Sys W)
        → get_destination_state (state_of s) v ≡ some d
        → before_event c t owner fuel v s ≡ r
        → Holds s
        → Holds (fire c t owner fuel e v s).1
    after_guard v d s (ok _, s1) there b h =
        let (u, ran, (at, _, backoff)) = fire-Settled c t owner fuel e laws v d s s1 there b in
        subst (λ x. Holds x) (sym (ap (λ (r : Result Unit × Sys W). r.1) ran))
          (subst (λ x. P x u.machine.backoff) (sym at)
            (entered d u.machine.backoff
              (destination_named c t owner fuel e laws (state_of s) d v there) backoff))
    after_guard v d s (err x, s1) there b h =
        let same : s1.machine ≡ s.machine =
          sym (ap (λ (r : Result Unit × Sys W). r.1.machine) b)
          ∙ (before_keeps c t owner fuel v s).0 in
        subst (λ x. Holds x)
          (sym (ap (λ (r : Result Unit × Sys W). r.1) (laws.cancelled v d s s1 x there b)))
          (subst (λ (m : Machine). P m.current m.backoff) (sym same) h)

    pub Keeps-fire : (v : Event) → Keeps (fire c t owner fuel e v)
    Keeps-fire v = record {
      at = λ s h. elim (Option-cases (get_destination_state (state_of s) v)) [
        | inl nowhere ↦
            subst (λ x. Holds x)
              (sym (ap (λ (r : Result Unit × Sys W). r.1) (laws.refused v s nowhere))) h
        | inr (d, there) ↦ after_guard v d s (before_event c t owner fuel v s) there refl h
      ];
    }

    Keeps-follow : (text : String) (r : Result Job) → Keeps (follow_job c t owner fuel e text r)
    unfolding follow_job time_now
    Keeps-follow text (err x) =
        Keeps-then _ _ (Keeps-attempt _ (Keeps-fire job_failed)) (Keeps-raise (wrapped text x))
    Keeps-follow text (ok job) = record { at = λ s h. h }

    Keeps-launch :
        (v : Event) (create : Node → Act W Job) (text : String)
        → Keeps (do
          wrap "FSM transition failed" (fire c t owner fuel e v)
          nm ← get_machine
          job ← attempt (call (create nm.node))
          follow_job c t owner fuel e text job)
    Keeps-launch v create text = Keeps-then _ _ (Keeps-wrap _ _ (Keeps-fire v)) (
        Keeps-bind get_machine _ (record { at = λ s h. h })
          (λ nm.
            Keeps-bind _ _ (Keeps-attempt _ (Keeps-call (create nm.node)))
              (λ job. Keeps-follow text job)))

    pub Keeps-start : Keeps (start_node_op c t owner fuel e)
    unfolding start_node_op start_from_event
    Keeps-start = record {
      at = λ s h.
          (Keeps-launch start_node (create_startup_job c t) "failed to create startup job").at
            (record s {
              world =
                  (remove_cluster_autoscaler_taint c s.machine.node.spec.kubernetes_node_name
                    (cleanup_pending_jobs c t s.machine.node
                      s.machine.node.spec.kubernetes_node_name s.world).1).1;
            })
            h;
    }

    pub Keeps-shutdown : Keeps (shutdown_node_op c t owner fuel e)
    unfolding shutdown_node_op shutdown_from_event
    Keeps-shutdown = record {
      at = λ s h.
          (Keeps-launch shutdown_node (create_shutdown_job c t) "failed to create shutdown job").at
            (record s {
              world =
                  (set_node_unschedulable c s.machine.node.spec.kubernetes_node_name
                    (cleanup_pending_jobs c t s.machine.node
                      s.machine.node.spec.kubernetes_node_name s.world).1).1;
            })
            h;
    }

    Keeps-act_on : (v : Verdict) → Keeps (act_on c t owner fuel e v)
    unfolding act_on
    Keeps-act_on succeeded =
        Keeps-then _ _ (Keeps-attempt _ (Keeps-fire job_completed)) (Keeps-pure true)
    Keeps-act_on failed = Keeps-then _ _ (Keeps-attempt _ (Keeps-fire job_failed)) (Keeps-pure true)
    Keeps-act_on running = Keeps-pure false

    Keeps-look : (name : String) → Keeps (look c t owner fuel e name)
    unfolding look
    Keeps-look name = record { at = λ s h. (Keeps-act_on _).at _ h }

    Keeps-unless :
        (b : Bool) (rest : Act (Sys W) Bool) → Keeps rest → Keeps (if b then pure true else rest)
    Keeps-unless true rest k = Keeps-pure true
    Keeps-unless false rest k = k

    Keeps-loop :
        (name : String) (wakes : List Wake) → Keeps (monitor_loop c t owner fuel e name wakes)
    unfolding monitor_loop
    Keeps-loop name [] = Keeps-pure false
    Keeps-loop name (deadline ∷ wakes) =
        Keeps-then _ _ (Keeps-attempt _ (Keeps-fire job_timeout)) (Keeps-pure true)
    Keeps-loop name (tick ∷ wakes) =
        Keeps-bind _ _ (Keeps-look name) (λ b. Keeps-unless b _ (Keeps-loop name wakes))

    pub Keeps-monitor :
        (name : String) (wakes : List Wake)
        → Keeps (monitor_job_completion c t owner fuel e name wakes)
    unfolding monitor_job_completion
    Keeps-monitor name wakes =
        Keeps-bind _ _ (Keeps-look name) (λ b. Keeps-unless b _ (Keeps-loop name wakes))

    Keeps-stuck_since : (b : Option BackoffStrategy) → Keeps (stuck_since c t owner fuel e b)
    unfolding stuck_since time_now
    Keeps-stuck_since none = Keeps-pure false
    Keeps-stuck_since (some b) = record { at = λ s h. h }

    Keeps-when : (b : Bool) (m : Act (Sys W) Unit) → Keeps m → Keeps (when b m)
    Keeps-when true m k = k
    Keeps-when false m k = Keeps-pure tt

    pub Keeps-check : Keeps (check_stuck_state c t owner fuel e)
    unfolding check_stuck_state is_transition_stuck
    Keeps-check =
        Keeps-bind _ _
          (Keeps-bind get_machine _ (record { at = λ s h. h }) (λ nm. Keeps-stuck_since nm.backoff))
          (λ b.
            Keeps-when b _
              (Keeps-then _ _ (Keeps-attempt _ (Keeps-fire force_cleanup)) (Keeps-pure tt)))
