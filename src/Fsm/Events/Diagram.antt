-- ===== src/Fsm/Events/Diagram.antt =====
-- The table of internal/fsm/events.go as a relation, and what the queries of that file have to do with
-- each other.
use homelab_autoscaler.Prelude.{
  ◌≡◌, refl, ◌≢◌, ◌↔◌, ◌⊎◌, inl, inr, true, some, arith, is_some, Option-cases,
}
use homelab_autoscaler.Prelude.Lists.{exists_in}
use homelab_autoscaler.Api.{Progress, shutting_down, shutdown, starting_up, ready}
use homelab_autoscaler.Fsm.Events.{
  State, Event, start_node, shutdown_node, job_completed, job_failed, job_timeout, force_cleanup,
  same_event, validate_event_transition, get_valid_events_for_state, get_destination_state,
  is_transitional_state, is_stable_state, get_operation_for_event, operation_scale_up,
  operation_scale_down,
}

-- The rows of the table, as the edges of a state diagram.
pub data Transition : State → Event → State → Type 0 where
  boot : Transition shutdown start_node starting_up
  halt : Transition ready shutdown_node shutting_down
  booted : Transition starting_up job_completed ready
  halted : Transition shutting_down job_completed shutdown
  boot_failed : Transition starting_up job_failed shutdown
  halt_failed : Transition shutting_down job_failed ready
  boot_timed_out : Transition starting_up job_timeout shutdown
  halt_timed_out : Transition shutting_down job_timeout ready
  boot_forced : Transition starting_up force_cleanup shutdown
  halt_forced : Transition shutting_down force_cleanup shutdown

ruleset edges = (
  boot, halt, booted, halted, boot_failed, halt_failed, boot_timed_out, halt_timed_out, boot_forced,
  halt_forced,
)

edge_of_destination :
    (s : State) (e : Event) (d : State) → get_destination_state s e ≡ some d → Transition s e d
unfolding get_destination_state
edge_of_destination s e d h = grind (arith, edges)

destination_of_edge :
    {s : State} {e : Event} {d : State} → Transition s e d → get_destination_state s e ≡ some d
unfolding get_destination_state
destination_of_edge boot = refl
destination_of_edge halt = refl
destination_of_edge booted = refl
destination_of_edge halted = refl
destination_of_edge boot_failed = refl
destination_of_edge halt_failed = refl
destination_of_edge boot_timed_out = refl
destination_of_edge halt_timed_out = refl
destination_of_edge boot_forced = refl
destination_of_edge halt_forced = refl

-- The destination that the code looks up for a state and an event, unknown ones included, is exactly
-- that of the edge, and there is none where there is no edge.
pub destination-Transition :
    (s : State) (e : Event) (d : State) → (get_destination_state s e ≡ some d) ↔ Transition s e d
destination-Transition s e d = (edge_of_destination s e d, destination_of_edge)

-- The three searches of the table agree on every state and event, unknown ones included: an event may
-- be triggered in a state exactly if it has a destination there, and exactly if it is in the list of
-- the state's valid events.
pub validity_agrees :
    (s : State) (e : Event)
    → (validate_event_transition s e ≡ is_some (get_destination_state s e))
      × (exists_in (λ v. same_event v e) (get_valid_events_for_state s)
          ≡ validate_event_transition s e)
unfolding validate_event_transition get_destination_state get_valid_events_for_state exists_in
validity_agrees s e = ground arith

-- Every edge of the diagram leads from a stable state to a transitional one or from a transitional
-- state to a stable one, and its destination is one of the two and not both.
pub Transition-alternates :
    {s d : State} {e : Event}
    → Transition s e d
    → (is_stable_state s ≡ is_transitional_state d)
      × (is_transitional_state s ≡ is_stable_state d)
      × (is_stable_state d ≢ is_transitional_state d)
unfolding is_stable_state is_transitional_state
Transition-alternates boot = ground arith
Transition-alternates halt = ground arith
Transition-alternates booted = ground arith
Transition-alternates halted = ground arith
Transition-alternates boot_failed = ground arith
Transition-alternates halt_failed = ground arith
Transition-alternates boot_timed_out = ground arith
Transition-alternates halt_timed_out = ground arith
Transition-alternates boot_forced = ground arith
Transition-alternates halt_forced = ground arith

scale_up_not_empty : operation_scale_up ≢ ""
scale_up_not_empty p = cc

scale_down_not_empty : operation_scale_down ≢ ""
scale_down_not_empty p = cc

operation_of_Transition :
    {s d : State} {e : Event}
    → Transition s e d
    → (get_operation_for_event e ≢ "") ↔ (is_stable_state s ≡ true)
unfolding get_operation_for_event is_stable_state
operation_of_Transition boot = (λ _. refl, λ _. scale_up_not_empty)
operation_of_Transition halt = (λ _. refl, λ _. scale_down_not_empty)
operation_of_Transition booted = (λ n. absurd (n refl), λ p. cc)
operation_of_Transition halted = (λ n. absurd (n refl), λ p. cc)
operation_of_Transition boot_failed = (λ n. absurd (n refl), λ p. cc)
operation_of_Transition halt_failed = (λ n. absurd (n refl), λ p. cc)
operation_of_Transition boot_timed_out = (λ n. absurd (n refl), λ p. cc)
operation_of_Transition halt_timed_out = (λ n. absurd (n refl), λ p. cc)
operation_of_Transition boot_forced = (λ n. absurd (n refl), λ p. cc)
operation_of_Transition halt_forced = (λ n. absurd (n refl), λ p. cc)

-- Every event that may be triggered changes the kind of state: it has a destination, a stable state
-- leads to a transitional one and a transitional one to a stable one, each state on the way being one
-- of the two and not both; and the operation that the event asks a lock for is named exactly if the
-- state that it leaves is stable.
pub valid_alternates :
    (s : State) (e : Event)
    → validate_event_transition s e ≡ true
    → (d : State) × (get_destination_state s e ≡ some d)
      × (is_stable_state s ≡ is_transitional_state d)
      × (is_transitional_state s ≡ is_stable_state d)
      × (is_stable_state d ≢ is_transitional_state d)
      × ((get_operation_for_event e ≢ "") ↔ (is_stable_state s ≡ true))
valid_alternates s e h = elim (Option-cases (get_destination_state s e)) [
  | inl p ↦ absurd (cc (h, p, (validity_agrees s e).0))
  | inr (d, p) ↦
      let edge = (destination-Transition s e d).0 p in
      let (leaves, enters, apart) = Transition-alternates edge in
      (d, p, leaves, enters, apart, operation_of_Transition edge)
]

infix 40 ◌⟶*◌
pub data ◌⟶*◌ : State → State → Type 0 where
  here : {s : State} → s ⟶* s
  then : {s t u : State} {e : Event} → Transition s e t → t ⟶* u → s ⟶* u

-- From each of the four states a run of the diagram leads to `ready` and one leads to `shutdown`:
-- no state is a dead end.
pub no_dead_end :
    (s : State)
    → (is_stable_state s ≡ true) ⊎ (is_transitional_state s ≡ true)
    → (s ⟶* ready) × (s ⟶* shutdown)
unfolding is_stable_state is_transitional_state
no_dead_end shutdown h = (then boot (then booted here), here)
no_dead_end ready h = (here, then halt (then halted here))
no_dead_end starting_up h = (then booted here, then boot_failed here)
no_dead_end shutting_down h = (then halt_failed here, then halted here)
no_dead_end (Progress.unnamed s) h = ground arith
