-- ===== src/Grpc/Template/Taints.antt =====
-- What the template of a node group (internal/grpcserver/server.go) keeps and drops.
use homelab_autoscaler.Prelude.{
  str_eq, if◌then◌else◌, ℕ, String, ◌≡◌, refl, ◌⊎◌, inl, inr, true, false, not, none, some, List,
  [], ◌∷◌, ◌++◌, arith, ◌∙◌, Option-cases,
}
use homelab_autoscaler.Prelude.Lists.{
  select, find_first, All, FirstIn, find_first-FirstIn, All-select, select-kept,
}
use homelab_autoscaler.Api.{Node, KubeNode, Taint, is_off}
use homelab_autoscaler.Api.Maps.{value_of, value_of-delete}
use homelab_autoscaler.Api.Text.{Texts}
use homelab_autoscaler.Grpc.Groups.{labels_of}
use homelab_autoscaler.Grpc.Template.{representative, is_removed, template_of, template_conditions}
use mathlib.Core.List.{head?}

not_removed :
    (n : Node) (xs : List Taint)
    → All (λ x. not (is_removed n x) ≡ true) xs
    → All (λ x. is_removed n x ≡ false) xs
not_removed n [] h = tt
not_removed n (x ∷ xs) (h, hs) = (ground arith, not_removed n xs hs)

module _ (t : Texts) (id : String) (now : ℕ) (n : Node) (k : KubeNode) where
  -- The template has none of the taints that are to be removed, neither the four fixed ones nor those
  -- that the node lists; it is schedulable, has the conditions of a node that is ready, and has the
  -- labels of the Kubernetes node but for its host name.
  pub template_clean :
      (label : String)
      → All (λ x. is_removed n x ≡ false) (template_of t id now n k).taints
        × ((template_of t id now n k).unschedulable ≡ false)
        × (value_of (labels_of (template_of t id now n k)) label
            ≡ (if str_eq "kubernetes.io/hostname" label then "" else value_of (labels_of k) label))
        × ((template_of t id now n k).conditions ≡ template_conditions)
  unfolding template_of value_of
  template_clean label = (
    not_removed n _ (All-select (λ x. not (is_removed n x)) k.taints),
    refl,
    elim (Option-cases k.labels) [
      | inl e ↦ rw (e, labels_of) (ground arith)
      | inr (m, e) ↦ rw (e, labels_of) (value_of-delete m "kubernetes.io/hostname" label)
    ],
    refl,
  )

  -- A taint of the Kubernetes node that is not to be removed is in the template, and taints keep
  -- their order.
  pub template_keeps :
      (before after : List Taint) (x : Taint)
      → k.taints ≡ before ++ x ∷ after
      → is_removed n x ≡ false
      → (template_of t id now n k).taints
        ≡ select (λ y. not (is_removed n y)) before ++ x ∷ select (λ y. not (is_removed n y)) after
  unfolding template_of
  template_keeps before after x h r =
      rw h (select-kept (λ y. not (is_removed n y)) before after x (rw r))

-- The representative of a group is its first node that is off, and where none is off, its first node.
pub representative-FirstIn :
    (ns : List Node) (m : Node)
    → representative ns ≡ some m
    → FirstIn (λ (x : Node). is_off x.status.power_state) ns m
      ⊎ ((find_first (λ (x : Node). is_off x.status.power_state) ns ≡ none) × (head? ns ≡ some m))
unfolding representative
representative-FirstIn [] m h = absurd (cc)
representative-FirstIn (n ∷ ns) m h =
    elim (Option-cases (find_first (λ (x : Node). is_off x.status.power_state) (n ∷ ns))) [
      | inl e ↦ inr (e, (rw (e, representative) at h))
      | inr (x, e) ↦ inl (find_first-FirstIn _ (n ∷ ns) m (e ∙ (rw (e, representative) at h)))
    ]
