-- ===== src/Fsm/Machine/Engine.antt =====
-- The looplab state machine engine, as its documentation describes it: `Event` runs the before
-- callback, which may cancel, then changes the state and runs the enter and the after callbacks.
use homelab_autoscaler.Prelude.{◌≡◌, none, some, List, Bool, is_some}
use homelab_autoscaler.Action.{Act, ok, err, Error, wrapped, failure}
use homelab_autoscaler.Fsm.Events.{
  State, Event, EventDesc, get_fsm_transitions, get_destination_state,
}

-- `fsm.Callbacks`; the after callbacks are given the destination.
pub record Callbacks (S : Type 0) : Type 0 where
  pub before : Event → Act S (Unit {0})
  pub enter : State → Act S (Unit {0})
  pub after : Event → State → Act S (Unit {0})

-- What `NewFSM` makes: `Event` and `Can`, over the state in which it keeps `Current`.
pub record Engine (S : Type 0) : Type 0 where
  pub fire : List EventDesc → Callbacks S → Event → Act S (Unit {0})
  pub can : List EventDesc → State → Event → Bool

-- The documented behaviour on the transition table of the program.
pub record EngineLaws {S : Type 0} (e : Engine S) (current : S → State)
    (set_current : State → S → S) (callbacks : Callbacks S) : Type 0 where
  pub can_table :
      (s : State) (v : Event) → e.can get_fsm_transitions s v ≡ is_some (get_destination_state s v)
  -- An event that is inappropriate in the current state is refused, and no callback runs.
  pub refused :
      (v : Event) (s : S)
      → get_destination_state (current s) v ≡ none
      → e.fire get_fsm_transitions callbacks v s
        ≡ (err (failure "event inappropriate in current state"), s)
  -- A before callback that cancels stops the event in the current state.
  pub cancelled :
      (v : Event) (d : State) (s t : S) (x : Error)
      → get_destination_state (current s) v ≡ some d
      → callbacks.before v s ≡ (err x, t)
      → e.fire get_fsm_transitions callbacks v s ≡ (err (wrapped "transition canceled" x), t)
  pub done :
      (v : Event) (d : State) (s t1 t2 t3 : S)
      → get_destination_state (current s) v ≡ some d
      → callbacks.before v s ≡ (ok tt, t1)
      → callbacks.enter d (set_current d t1) ≡ (ok tt, t2)
      → callbacks.after v d t2 ≡ (ok tt, t3)
      → e.fire get_fsm_transitions callbacks v s ≡ (ok tt, t3)
