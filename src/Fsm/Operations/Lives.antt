-- ===== src/Fsm/Operations/Lives.antt =====
-- The life of a state machine (internal/fsm/node_state_machine.go): its operations in any order, with
-- the world changing in between.
use homelab_autoscaler.Prelude.{
  ◌⊎◌, true, Option, is_some, ℕ, String, ◌≡◌, Bool, false, List, ap, sym, subst,
}
use homelab_autoscaler.Action.{Act, Result}
use homelab_autoscaler.Api.{Node}
use homelab_autoscaler.Api.Text.{Texts}
use homelab_autoscaler.Api.Client.{Client}
use homelab_autoscaler.Fsm.Events.{State, Event, is_stable_state, is_transitional_state}
use homelab_autoscaler.Fsm.Machine.{
  BackoffStrategy, Sys, set_current, new_node_state_machine, state_of_progress,
}
use homelab_autoscaler.Fsm.Machine.Engine.{Engine, EngineLaws}
use homelab_autoscaler.Fsm.Machine.Hooks.{get_fsm_callbacks}
use homelab_autoscaler.Fsm.Operations.{
  Wake, fire, start_node_op, shutdown_node_op, monitor_job_completion, check_stuck_state,
}
use homelab_autoscaler.Fsm.Operations.Settles.{state_of}
use homelab_autoscaler.Fsm.Operations.Keeping.{
  Holds, Keeps, Keeps-fire, Keeps-start, Keeps-shutdown, Keeps-monitor, Keeps-check,
}

-- A backoff runs exactly in the transitional states.
abbrev pub Consistent : State → Option BackoffStrategy → Type 0
Consistent d o = is_some o ≡ is_transitional_state d

module _ {W : Type 0} (c : Client W) (t : Texts) (owner : String) (fuel : ℕ)
    (e : Engine (Sys W)) where
  -- One operation, whatever it returns; the events include those of the jobs, which any caller may fire.
  pub data Step (s : Sys W) : Sys W → Type 0 where
    starts : (r : Result Unit) {u : Sys W} → start_node_op c t owner fuel e s ≡ (r, u) → Step s u
    shuts_down :
        (r : Result Unit) {u : Sys W} → shutdown_node_op c t owner fuel e s ≡ (r, u) → Step s u
    fires :
        (v : Event) (r : Result Unit) {u : Sys W} → fire c t owner fuel e v s ≡ (r, u) → Step s u
    watches :
        (name : String) (wakes : List Wake) (r : Result Bool) {u : Sys W}
        → monitor_job_completion c t owner fuel e name wakes s ≡ (r, u)
        → Step s u
    checks :
        (r : Result Unit) {u : Sys W} → check_stuck_state c t owner fuel e s ≡ (r, u) → Step s u
    elsewhere : (w : W) → Step s (record s { world = w })

  pub data Life (s : Sys W) : Sys W → Type 0 where
    born : Life s s
    lives : {u v : Sys W} → Life s u → Step u v → Life s v

  module _ (laws : EngineLaws e state_of set_current (get_fsm_callbacks c t owner fuel))
      (P : State → Option BackoffStrategy → Type 0)
      (entered : (d : State) (o : Option BackoffStrategy)
        → (is_stable_state d ≡ true) ⊎ (is_transitional_state d ≡ true)
        → is_some o ≡ is_transitional_state d
        → P d o) where
    kept :
        {A : Type 0} {m : Act (Sys W) A} {s u : Sys W} {r : Result A}
        → Keeps P m
        → m s ≡ (r, u)
        → Holds P s
        → Holds P u
    kept {A} k ran h = subst (λ x. Holds P x) (ap (λ (x : Result A × Sys W). x.1) ran) (k.at _ h)

    -- No operation takes away what holds of every machine in which an event has just taken place.
    pub Step-Holds : {s u : Sys W} → Step s u → Holds P s → Holds P u
    Step-Holds (starts r ran) = kept (Keeps-start P c t owner fuel e laws entered) ran
    Step-Holds (shuts_down r ran) = kept (Keeps-shutdown P c t owner fuel e laws entered) ran
    Step-Holds (fires v r ran) = kept (Keeps-fire P c t owner fuel e laws entered v) ran
    Step-Holds (watches name wakes r ran) =
        kept (Keeps-monitor P c t owner fuel e laws entered name wakes) ran
    Step-Holds (checks r ran) = kept (Keeps-check P c t owner fuel e laws entered) ran
    Step-Holds (elsewhere w) = λ h. h

    Life-keeps : {s u : Sys W} → Life s u → Holds P s → Holds P u
    Life-keeps born h = h
    Life-keeps (lives before step) h = Step-Holds step (Life-keeps before h)

  module _ (laws : EngineLaws e state_of set_current (get_fsm_callbacks c t owner fuel)) where
    -- Over the whole life of a machine that was made for a node at rest, with an engine that behaves as
    -- documented and in any order of operations, failed ones included, a backoff runs exactly while the
    -- machine is in a transitional state.
    pub Life-Consistent :
        (node : Node) (monitors : List String) (w : W) (u : Sys W)
        → is_transitional_state (state_of_progress node.status.progress) ≡ false
        → Life (record { machine = new_node_state_machine node; monitors = monitors; world = w }) u
        → Consistent (state_of u) u.machine.backoff
    unfolding new_node_state_machine
    Life-Consistent node monitors w u rest life =
        Life-keeps laws Consistent (λ d o _ h. h) life (sym rest)
