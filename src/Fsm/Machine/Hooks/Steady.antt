-- ===== src/Fsm/Machine/Hooks/Steady.antt =====
-- What the hooks of internal/fsm/hooks.go leave alone: the state, the monitors, and but for the entry
-- hooks the backoff; and that the entry and after hooks never fail.
use homelab_autoscaler.Prelude.{
  ℕ, String, ◌≡◌, refl, Bool, true, Option, none, some, arith, is_some, ◌∙◌, ap, ◌⊎◌,
}
use homelab_autoscaler.Action.{Act, Result, ok, err, pure, ◌>>◌}
use homelab_autoscaler.Api.{Node, Progress, shutting_down, shutdown, starting_up, ready}
use homelab_autoscaler.Api.Text.{Texts}
use homelab_autoscaler.Api.Client.{Client, time_now}
use homelab_autoscaler.Fsm.Events.{
  State, Event, start_node, shutdown_node, job_completed, job_failed, force_cleanup,
  is_transitional_state, is_stable_state,
}
use homelab_autoscaler.Fsm.Coordination.{release_lock, force_release_lock}
use homelab_autoscaler.Fsm.KubeNodes.{set_node_schedulable_with_retry}
use homelab_autoscaler.Fsm.Machine.{
  BackoffStrategy, max_retries, Sys, adopt, update_node_progress, add_node_condition,
}
use homelab_autoscaler.Fsm.Machine.Hooks.{
  before_start_node, before_shutdown_node, condition_now, uncordon_if_ready, release_own,
  force_release, after_job_completed, after_job_failed, after_force_cleanup, reset_backoff,
  clear_backoff, enter_starting_up, enter_shutting_down, enter_ready, enter_shutdown, before_event,
  enter_state, after_event,
}

-- The same state of the engine and the same monitors.
abbrev pub SameCourse : {W : Type 0} → Sys W → Sys W → Type 0
SameCourse s u = (u.machine.current ≡ s.machine.current) × (u.monitors ≡ s.monitors)

-- An action that succeeds and keeps the course and the backoff.
pub record Steady {W : Type 0} (m : Act (Sys W) Unit) : Type 0 where
  pub at :
      (s : Sys W)
      → (u : Sys W) × (m s ≡ (ok tt, u)) × SameCourse s u × (u.machine.backoff ≡ s.machine.backoff)

module _ {W : Type 0} where
  Steady-pure : Steady {W = W} (pure tt)
  Steady-pure = record { at = λ s. (s, refl, (refl, refl), refl) }

  Steady-seq : (m n : Act (Sys W) Unit) → Steady m → Steady n → Steady (m >> n)
  Steady-seq m n hm hn = record {
    at = λ s.
        let (u, ran, same, kept) = hm.at s in
        let (v, ran', same', kept') = hn.at u in
        (v, rw ran ran', (same'.0 ∙ same.0, same'.1 ∙ same.1), kept' ∙ kept);
  }

  adopt_steady :
      (s : Sys W) (r : Result Node × W)
      → (u : Sys W) × (adopt s r ≡ (ok tt, u))
        × SameCourse s u
        × (u.machine.backoff ≡ s.machine.backoff)
  adopt_steady s (ok fresh, w) = (
    record s { machine = record s.machine { node = fresh }; world = w },
    refl,
    (refl, refl),
    refl,
  )
  adopt_steady s (err e, w) = (record s { world = w }, refl, (refl, refl), refl)

module _ {W : Type 0} (c : Client W) (t : Texts) (owner : String) (fuel : ℕ) where
  Steady-progress : (p : Progress) → Steady (update_node_progress c p)
  unfolding update_node_progress
  Steady-progress p = record { at = λ s. adopt_steady s _ }

  Steady-condition :
      (kind : String) (held : Bool) (reason : String)
      → Steady (condition_now c t owner fuel kind held reason)
  unfolding condition_now time_now add_node_condition
  Steady-condition kind held reason = record {
    at = λ s. adopt_steady (record s { world = (c.now s.world).1 }) _;
  }

  Steady-release : Steady (release_own c t owner fuel)
  unfolding release_own
  Steady-release = record {
    at = λ s. (
      record s { world = (release_lock c t owner s.machine.node s.world).1 },
      refl,
      (refl, refl),
      refl,
    );
  }

  Steady-uncordon : (dst : State) → Steady (uncordon_if_ready c t owner fuel dst)
  unfolding uncordon_if_ready
  Steady-uncordon ready = record {
    at = λ s. (
      record s {
        world =
            (set_node_schedulable_with_retry c fuel s.machine.node.spec.kubernetes_node_name
              s.machine.uncordon_timeout s.world).1;
      },
      refl,
      (refl, refl),
      refl,
    );
  }
  Steady-uncordon _ = Steady-pure

  Steady-force_release : Steady (force_release c t owner fuel)
  unfolding force_release
  Steady-force_release = record {
    at = λ s. (
      record s { world = (force_release_lock c t owner s.machine.node s.world).1 },
      refl,
      (refl, refl),
      refl,
    );
  }

  -- The after hooks never fail, and keep the state, the monitors and the backoff.
  pub Steady-after : (v : Event) (dst : State) → Steady (after_event c t owner fuel v dst)
  unfolding after_event after_job_completed after_job_failed after_force_cleanup
  Steady-after job_completed dst =
      Steady-seq _ _ (Steady-uncordon dst) (Steady-seq _ _ Steady-release (Steady-progress dst))
  Steady-after job_failed dst =
      Steady-seq _ _ Steady-release (Steady-seq _ _ (Steady-progress dst) (Steady-condition _ _ _))
  Steady-after force_cleanup dst =
      Steady-seq _ _ Steady-force_release
        (Steady-seq _ _ (Steady-progress dst) (Steady-condition _ _ _))
  Steady-after _ dst = Steady-pure

  -- The system after `reset_backoff` and after `clear_backoff`.
  abbrev begun : Sys W → Sys W
  begun s = record s {
    machine = record s.machine {
      backoff = some (record {
        transition_start = (c.now s.world).0;
        retry_count = 0;
        max_retries = max_retries;
      });
    };
    world = (c.now s.world).1;
  }

  abbrev settled : Sys W → Sys W
  settled s = record s { machine = record s.machine { backoff = none } }

  announce :
      (p : Progress) (kind : String) (held : Bool) (reason : String) (s : Sys W)
      → (u : Sys W) × ((update_node_progress c p >> condition_now c t owner fuel kind held reason) s
          ≡ (ok tt, u))
        × SameCourse s u
        × (is_some u.machine.backoff ≡ is_some s.machine.backoff)
  announce p kind held reason s =
      let (u, ran, same, kept) =
        (Steady-seq _ _ (Steady-progress p) (Steady-condition kind held reason)).at s in
      (u, ran, same, ap (λ (o : Option BackoffStrategy). is_some o) kept)

  -- The entry hook of a state of the diagram never fails, keeps the state and the monitors, and
  -- leaves a backoff exactly if the state is transitional.
  pub enter_backoff :
      (d : State) (s : Sys W)
      → (is_stable_state d ≡ true) ⊎ (is_transitional_state d ≡ true)
      → (u : Sys W) × (enter_state c t owner fuel d s ≡ (ok tt, u))
        × SameCourse s u
        × (is_some u.machine.backoff ≡ is_transitional_state d)
  unfolding enter_state enter_starting_up enter_shutting_down enter_ready enter_shutdown
      reset_backoff clear_backoff is_stable_state is_transitional_state time_now
  enter_backoff starting_up s h = announce starting_up _ _ _ (begun s)
  enter_backoff shutting_down s h = announce shutting_down _ _ _ (begun s)
  enter_backoff ready s h = announce ready _ _ _ (settled s)
  enter_backoff shutdown s h = announce shutdown _ _ _ (settled s)
  enter_backoff (Progress.unnamed x) s h = ground arith

  -- The before hooks, whether they succeed or fail, keep all of the machine and the monitors.
  pub before_keeps :
      (v : Event) (s : Sys W)
      → ((before_event c t owner fuel v s).1.machine ≡ s.machine)
        × ((before_event c t owner fuel v s).1.monitors ≡ s.monitors)
  unfolding before_event before_start_node before_shutdown_node
  before_keeps start_node s = (refl, refl)
  before_keeps shutdown_node s = (refl, refl)
  before_keeps _ s = (refl, refl)
