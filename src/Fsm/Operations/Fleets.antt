-- ===== src/Fsm/Operations/Fleets.antt =====
-- The state machines that the reconciliations of internal/controller/infra/node_controller.go make: each
-- has its own machine, which lives on in its monitor, and all of them share the API server.
use homelab_autoscaler.Prelude.{
  ℕ, String, ◌≡◌, refl, ◌⊎◌, inl, inr, Bool, true, false, Option, none, some, is_some, List, [],
  ◌∷◌, ◌++◌,
}
use homelab_autoscaler.Prelude.Lists.{All}
use homelab_autoscaler.Api.{Node, Progress, shutting_down, shutdown, starting_up, ready}
use homelab_autoscaler.Api.Text.{Texts}
use homelab_autoscaler.Api.Client.{Client}
use homelab_autoscaler.Fsm.Events.{State, is_stable_state, is_transitional_state}
use homelab_autoscaler.Fsm.Machine.{
  BackoffStrategy, Machine, Sys, set_current, new_node_state_machine, state_of_progress,
}
use homelab_autoscaler.Fsm.Machine.Engine.{Engine, EngineLaws}
use homelab_autoscaler.Fsm.Machine.Hooks.{get_fsm_callbacks}
use homelab_autoscaler.Fsm.Operations.Settles.{state_of}
use homelab_autoscaler.Fsm.Operations.Lives.{Consistent, Step, Step-Holds}

-- A machine with the monitors that it has started, and the state in which it was made.
pub record Member : Type 0 where
  pub origin : State
  pub machine : Machine
  pub monitors : List String

pub record Fleet (W : Type 0) : Type 0 where
  pub members : List Member
  pub world : W

abbrev pub sys_of : {W : Type 0} → Member → W → Sys W
sys_of m w = record { machine = m.machine; monitors = m.monitors; world = w }

abbrev pub made_for : Node → Member
made_for node = record {
  origin = state_of_progress node.status.progress;
  machine = new_node_state_machine node;
  monitors = [];
}

abbrev pub after_act : {W : Type 0} → Member → Sys W → Member
after_act m u = record { origin = m.origin; machine = u.machine; monitors = u.monitors }

module _ {W : Type 0} (c : Client W) (t : Texts) (owner : String) (fuel : ℕ)
    (e : Engine (Sys W)) where
  -- A reconciliation makes a machine, one of the machines does an operation, or others act.
  pub data Turn (f : Fleet W) : Fleet W → Type 0 where
    makes : (node : Node) → Turn f (record { members = made_for node ∷ f.members; world = f.world })
    acts :
        (before after : List Member) (m : Member) (u : Sys W)
        → f.members ≡ before ++ m ∷ after
        → Step c t owner fuel e (sys_of m f.world) u
        → Turn f (record { members = before ++ after_act m u ∷ after; world = u.world })
    idles : (w : W) → Turn f (record { members = f.members; world = w })

  pub data Turns (f : Fleet W) : Fleet W → Type 0 where
    begun : Turns f f
    then_turn : {g h : Fleet W} → Turns f g → Turn g h → Turns f h

abbrev pub empty_fleet : {W : Type 0} → W → Fleet W
empty_fleet w = record { members = []; world = w }

-- The state is one of the four named ones, a backoff runs in a transitional one only, and for a machine
-- that was made at rest in every transitional one too.
abbrev pub SoundFrom : State → State → Option BackoffStrategy → Type 0
SoundFrom origin d o =
    ((is_stable_state d ≡ true) ⊎ (is_transitional_state d ≡ true))
    × ((o ≡ none) ⊎ (is_transitional_state d ≡ true))
    × ((is_transitional_state origin ≡ true) ⊎ Consistent d o)

abbrev pub SoundMember : Member → Type 0
SoundMember m = SoundFrom m.origin m.machine.current m.machine.backoff

made-SoundFrom : (p : Progress) → SoundFrom (state_of_progress p) (state_of_progress p) none
unfolding state_of_progress is_stable_state is_transitional_state
made-SoundFrom shutdown = (inl refl, inl refl, inr refl)
made-SoundFrom starting_up = (inr refl, inl refl, inl refl)
made-SoundFrom ready = (inl refl, inl refl, inr refl)
made-SoundFrom shutting_down = (inr refl, inl refl, inl refl)
made-SoundFrom (Progress.unnamed _) = (inl refl, inl refl, inr refl)

running_or_none : (o : Option BackoffStrategy) (b : Bool) → is_some o ≡ b → (o ≡ none) ⊎ (b ≡ true)
running_or_none none b h = inl refl
running_or_none (some _) true h = inr refl
running_or_none (some _) false h = absurd (cc)

entered-SoundFrom :
    (origin d : State) (o : Option BackoffStrategy)
    → (is_stable_state d ≡ true) ⊎ (is_transitional_state d ≡ true)
    → is_some o ≡ is_transitional_state d
    → SoundFrom origin d o
entered-SoundFrom origin d o named h = (named, running_or_none o (is_transitional_state d) h, inr h)

made-SoundMember : (node : Node) → SoundMember (made_for node)
unfolding new_node_state_machine
made-SoundMember node = made-SoundFrom node.status.progress

All-replaced :
    (P : Member → Type 0) (before after : List Member) (m n : Member)
    → All P (before ++ m ∷ after)
    → (P m → P n)
    → All P (before ++ n ∷ after)
All-replaced P [] after m n h f = (f h.0, h.1)
All-replaced P (x ∷ before) after m n h f = (h.0, All-replaced P before after m n h.1 f)

module _ {W : Type 0} (c : Client W) (t : Texts) (owner : String) (fuel : ℕ) (e : Engine (Sys W))
    (laws : EngineLaws e state_of set_current (get_fsm_callbacks c t owner fuel)) where
  Turn-Sound :
      {f g : Fleet W}
      → Turn c t owner fuel e f g
      → All SoundMember f.members
      → All SoundMember g.members
  Turn-Sound (makes node) h = (made-SoundMember node, h)
  Turn-Sound {f} (acts before after m u split step) h =
      All-replaced SoundMember before after m (after_act m u) (rw (← split) h)
        (Step-Holds c t owner fuel e laws (SoundFrom m.origin) (entered-SoundFrom m.origin) step)
  Turn-Sound (idles w) h = h

  -- In every interleaving of any number of machines, made for nodes of whatever progress, over one API
  -- server and with an engine that behaves as documented, whatever their operations return: every
  -- machine is in one of the four named states, it has a backoff in a transitional state only, and one
  -- that was made at rest has a backoff in every transitional state.
  pub Turns-Sound :
      (w : W) (f : Fleet W) → Turns c t owner fuel e (empty_fleet w) f → All SoundMember f.members
  Turns-Sound w f turns = kept turns tt
    where
      kept :
          {f g : Fleet W}
          → Turns c t owner fuel e f g
          → All SoundMember f.members
          → All SoundMember g.members
      kept begun h = h
      kept (then_turn before turn) h = Turn-Sound turn (kept before h)
