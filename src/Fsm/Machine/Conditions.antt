-- ===== src/Fsm/Machine/Conditions.antt =====
-- What `addNodeCondition` of internal/fsm/node_state_machine.go comes to, on a server that keeps the
-- conditions of a Node as a map by type.
use homelab_autoscaler.Prelude.{
  String, ◌≡◌, refl, ◌⊎◌, inl, inr, Bool, Bool-cases, true, false, ◌||◌, List, [], ◌∷◌, ◌++◌,
  str_eq,
}
use homelab_autoscaler.Prelude.Lists.{exists_in}
use homelab_autoscaler.Action.{Result, ok, err, continue-eq-ok}
use homelab_autoscaler.Api.{Node, Condition, key_of}
use homelab_autoscaler.Api.Client.{Client}
use homelab_autoscaler.Api.Server.{has_repeat, StatusLaws, WriteLaws}
use homelab_autoscaler.Fsm.Machine.{Sys, adopt, with_condition, store_condition, add_node_condition}

-- Whether a list has a condition of that type.
abbrev pub has_kind : String → List Condition → Bool
has_kind kind xs = exists_in (λ (y : Condition). str_eq y.kind kind) xs

exists_in-last :
    (p : Condition → Bool) (xs : List Condition) (x : Condition)
    → p x ≡ true
    → exists_in p (xs ++ x ∷ []) ≡ true
unfolding exists_in
exists_in-last p [] x h = rw h refl
exists_in-last p (y ∷ ys) x h = elim (Bool-cases (p y)) [
  | inl k ↦ rw (k, exists_in) refl
  | inr k ↦ rw (k, exists_in) (exists_in-last p ys x h)
]

or_right : (a b : Bool) → b ≡ true → (a || b) ≡ true
or_right true b h = refl
or_right false b h = h

has_repeat-append :
    (xs : List Condition) (x : Condition)
    → has_kind x.kind xs ≡ true
    → has_repeat (xs ++ x ∷ []) ≡ true
unfolding has_repeat exists_in
has_repeat-append [] x h = absurd (cc)
has_repeat-append (y ∷ ys) x h = elim (Bool-cases (str_eq y.kind x.kind)) [
  | inl same ↦
      rw (exists_in-last (λ (z : Condition). str_eq y.kind z.kind) ys x same, has_repeat) refl
  | inr differs ↦ or_right _ _ (has_repeat-append ys x (rw (differs, exists_in) at h))
]

module _ {W : Type 0} (c : Client W) (statuses : StatusLaws c) (writes : WriteLaws c) where
  -- What came of adding a condition: nothing, or the node of the machine is now a stored copy that had
  -- no condition of that type, with the condition added.
  abbrev pub Added : Condition → Sys W → Sys W → Type 0
  Added condition s r =
      (r.machine ≡ s.machine)
      ⊎ ((v u : W) × (fresh : Node) × (c.get_node (key_of s.machine.node) v ≡ (ok fresh, u))
          × (has_kind condition.kind fresh.status.conditions ≡ false)
          × (r.machine ≡ record s.machine { node = r.machine.node })
          × (r.machine.node.status ≡ (with_condition fresh condition).status))

  store_condition-Added :
      (condition : Condition) (s : Sys W) (v : W) (r : Result Node × W)
      → store_condition c s.machine.node condition v ≡ r
      → Added condition s (adopt s r).1
  unfolding store_condition with_condition
  store_condition-Added condition s v (err e, w) h = inl refl
  store_condition-Added condition s v (ok n, w) h =
      let (fresh, u, got, put) =
        continue-eq-ok (c.get_node (key_of s.machine.node) v)
          (λ (f : Node). c.update_node_status (with_condition f condition)) h in
      inr (
        v,
        u,
        fresh,
        got,
        elim (Bool-cases (has_kind condition.kind fresh.status.conditions)) [
          | inl had ↦ absurd (
              cc (
                has_repeat-append fresh.status.conditions condition had,
                statuses.repeat_refused (with_condition fresh condition) n u w put,
              ))
          | inr new ↦ new
        ],
        refl,
        writes.update_status_keeps (with_condition fresh condition) n u w put,
      )

  -- A condition is only ever added where the stored node has none of its type: on a server that keeps
  -- the conditions of a Node as a map by type, the call leaves the machine as it was, or it has read a
  -- node without a condition of that type, and the machine's node now has the status that was read with
  -- the condition at its end.
  pub condition_once :
      (condition : Condition) (s : Sys W) → Added condition s (add_node_condition c condition s).1
  unfolding add_node_condition
  condition_once condition s =
      let (v, last) =
        statuses.retry_node_last (store_condition c s.machine.node condition) s.world in
      rw last (store_condition-Added condition s v _ refl)
