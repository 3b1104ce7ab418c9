-- ===== src/Fsm/KubeNodes/Cordons.antt =====
-- What an uncordon leaves on a Kubernetes node.
use homelab_autoscaler.Prelude.{
  ◌≡◌, refl, Bool, Bool-cases, inl, inr, ap, false, not, none, some, List, [], ◌∷◌, arith,
}
use homelab_autoscaler.Prelude.Lists.{select, exists_in}
use homelab_autoscaler.Api.{KubeNode}
use homelab_autoscaler.Fsm.KubeNodes.{unschedulable_key, has_key, uncordoned}

module _ {A : Type 0} (p : A → Bool) where
  select_none : (xs : List A) → exists_in p (select (λ x. not (p x)) xs) ≡ false
  unfolding exists_in select
  select_none [] = refl
  select_none (x ∷ xs) = ground (arith, select_none xs)

  select_same : (xs : List A) → exists_in p xs ≡ false → select (λ x. not (p x)) xs ≡ xs
  unfolding exists_in select
  select_same [] h = refl
  select_same (x ∷ xs) h = elim (Bool-cases (p x)) [
    | inl e ↦ absurd (cc (rw (e, exists_in) at h))
    | inr e ↦ rw (e, select) (ap (λ ys. x ∷ ys) (select_same xs (rw (e, exists_in) at h)))
  ]

taints_left :
    (k j : KubeNode)
    → uncordoned k ≡ some j
    → j.taints ≡ select (λ x. not (has_key unschedulable_key x)) k.taints
unfolding uncordoned
taints_left k j h = elim (Bool-cases (exists_in (has_key unschedulable_key) k.taints)) [
  | inl e ↦ ground arith
  | inr e ↦ ground (arith, select_same (has_key unschedulable_key) k.taints e)
]

-- An uncordon is complete: the node that it stores is schedulable, has the taints that the node had,
-- in their order, but for those of the key `node.kubernetes.io/unschedulable`, of which it has none
-- left, and is one that a further uncordon does not touch.
pub uncordoned_completes :
    (k j : KubeNode)
    → uncordoned k ≡ some j
    → (j.unschedulable ≡ false)
      × (j.taints ≡ select (λ x. not (has_key unschedulable_key x)) k.taints)
      × (exists_in (has_key unschedulable_key) j.taints ≡ false)
      × (uncordoned j ≡ none)
unfolding uncordoned
uncordoned_completes k j h =
    ground (arith, taints_left k j h, select_none (has_key unschedulable_key) k.taints)
