-- ===== src/Fsm/Events.antt =====
-- The states and events of internal/fsm/types.go and the transition table with its queries of
-- internal/fsm/events.go. The states are the values of `Progress` (the code casts one to the other).
pub mod Diagram
use homelab_autoscaler.Prelude.{
  String, Bool, true, false, ◌||◌, Option, none, some, List, [], ◌∷◌, ◌++◌, str_eq, if◌then◌else◌,
}
use homelab_autoscaler.Prelude.Lists.{exists_in}
use homelab_autoscaler.Api.{Progress, shutting_down, shutdown, starting_up, ready}

abbrev pub State : Type 0
State = Progress

pub data Event : Type 0 where
  start_node shutdown_node job_completed job_failed job_timeout force_cleanup : Event
  unnamed : String → Event

-- `a == b` on states and on events, which are texts in the code.
abbrev pub same_state : State → State → Bool
same_state shutting_down shutting_down = true
same_state shutdown shutdown = true
same_state starting_up starting_up = true
same_state ready ready = true
same_state (Progress.unnamed s) (Progress.unnamed t) = str_eq s t
same_state _ _ = false

abbrev pub same_event : Event → Event → Bool
same_event start_node start_node = true
same_event shutdown_node shutdown_node = true
same_event job_completed job_completed = true
same_event job_failed job_failed = true
same_event job_timeout job_timeout = true
same_event force_cleanup force_cleanup = true
same_event (Event.unnamed s) (Event.unnamed t) = str_eq s t
same_event _ _ = false

-- `fsm.EventDesc` of the looplab library.
pub record EventDesc : Type 0 where
  pub name : Event
  pub src : List State
  pub dst : State

abbrev desc : Event → List State → State → EventDesc
desc name src dst = record { name = name; src = src; dst = dst }

unfoldable pub get_fsm_transitions : List EventDesc
get_fsm_transitions =
    desc start_node (shutdown ∷ []) starting_up
    ∷ desc shutdown_node (ready ∷ []) shutting_down
    ∷ desc job_completed (starting_up ∷ []) ready
    ∷ desc job_completed (shutting_down ∷ []) shutdown
    ∷ desc job_failed (starting_up ∷ []) shutdown
    ∷ desc job_failed (shutting_down ∷ []) ready
    ∷ desc job_timeout (starting_up ∷ []) shutdown
    ∷ desc job_timeout (shutting_down ∷ []) ready
    ∷ desc force_cleanup (starting_up ∷ shutting_down ∷ []) shutdown
    ∷ []

-- The inner loops over `transition.Src`.
has_source : EventDesc → State → Bool
unfolding exists_in
has_source t state = exists_in (λ src. same_state src state) t.src

validate_from : List EventDesc → State → Event → Bool
unfolding has_source
validate_from [] state event = false
validate_from (t ∷ ts) state event =
    let rest = validate_from ts state event in
    if same_event t.name event then (if has_source t state then true else rest) else rest

unfoldable pub validate_event_transition : State → Event → Bool
unfolding validate_from get_fsm_transitions
validate_event_transition = validate_from get_fsm_transitions

-- `validEvents` grows at its end; an event that it holds is not added again.
valid_events_from : List EventDesc → State → List Event → List Event
unfolding has_source
valid_events_from [] state found = found
valid_events_from (t ∷ ts) state found = valid_events_from ts state (
    if has_source t state
    then (if exists_in (λ event. same_event event t.name) found
        then found
        else found ++ t.name ∷ [])
    else found)

unfoldable pub get_valid_events_for_state : State → List Event
unfolding valid_events_from get_fsm_transitions
get_valid_events_for_state state = valid_events_from get_fsm_transitions state []

destination_from : List EventDesc → State → Event → Option State
unfolding has_source
destination_from [] src event = none
destination_from (t ∷ ts) src event =
    let rest = destination_from ts src event in
    if same_event t.name event then (if has_source t src then some t.dst else rest) else rest

unfoldable pub get_destination_state : State → Event → Option State
unfolding destination_from get_fsm_transitions
get_destination_state = destination_from get_fsm_transitions

unfoldable pub is_transitional_state : State → Bool
is_transitional_state state = same_state state starting_up || same_state state shutting_down

unfoldable pub is_stable_state : State → Bool
is_stable_state state = same_state state ready || same_state state shutdown

abbrev pub operation_scale_up : String
operation_scale_up = "scale-up"

abbrev pub operation_scale_down : String
operation_scale_down = "scale-down"

unfoldable pub get_operation_for_event : Event → String
get_operation_for_event start_node = operation_scale_up
get_operation_for_event shutdown_node = operation_scale_down
get_operation_for_event _ = ""
