-- ===== src/Webhook/Admission.antt =====
-- Which Node resources the webhook of internal/webhook/infra/v1alpha1/node_webhook.go lets in.
use homelab_autoscaler.Prelude.{String, ◌≡◌, refl, ◌↔◌, Option, none, some, arith}
use homelab_autoscaler.Action.{Result, ok, err, continue, caught, continue-eq-ok}
use homelab_autoscaler.Api.{Node, Group, KubeNode}
use homelab_autoscaler.Api.Maps.{lookup}
use homelab_autoscaler.Api.Client.{Client}
use homelab_autoscaler.Webhook.{
  judge_kube_node, validate_kubernetes_node, judge_group, validate_named_group,
  validate_group_label, validate_create, validate_update,
}

module _ {W : Type 0} (c : Client W) where
  -- What an admitted resource refers to: its group label names a group of its namespace, and its
  -- Kubernetes node exists.
  abbrev pub Grounded : Node → W → W → Type 0
  Grounded node w v =
      (name : String) × (group : Group) × (kube : KubeNode) × (u : W) × (lookup node.labels "group"
        ≡ some name)
      × (c.get_group (record { name = name; namespace = node.namespace }) w ≡ (ok group, u))
      × (c.get_kube_node node.spec.kubernetes_node_name u ≡ (ok kube, v))

  kube_node-ok :
      (r : Result KubeNode × W) (v : W)
      → continue (caught r) (judge_kube_node c) ≡ (ok tt, v)
      → (kube : KubeNode) × (r ≡ (ok kube, v))
  unfolding judge_kube_node
  kube_node-ok (ok kube, u) v h = (kube, ground arith)
  kube_node-ok (err e, u) v h = ground arith

  group-ok :
      (r : Result Group × W) (v : W)
      → continue (caught r) (judge_group c) ≡ (ok tt, v)
      → (group : Group) × (r ≡ (ok group, v))
  unfolding judge_group
  group-ok (ok group, u) v h = (group, ground arith)
  group-ok (err e, u) v h = ground arith

  labelled-ok :
      (node : Node) (o : Option String) (w v : W)
      → validate_named_group c node o w ≡ (ok tt, v)
      → (name : String) × (group : Group) × (o ≡ some name)
        × (c.get_group (record { name = name; namespace = node.namespace }) w ≡ (ok group, v))
  unfolding validate_named_group
  labelled-ok node none w v h = absurd (cc)
  labelled-ok node (some name) w v h =
      let (group, got) =
        group-ok (c.get_group (record { name = name; namespace = node.namespace }) w) v h in
      (name, group, refl, got)

  refers_if_admitted :
      (node : Node) (w v : W) → validate_create c node w ≡ (ok tt, v) → Grounded node w v
  unfolding validate_create
  refers_if_admitted node w v h =
      let (_, u, labelled, rest) =
        continue-eq-ok (validate_group_label c node w) (λ _. validate_kubernetes_node c node) h in
      let (name, group, named, got) = labelled-ok node (lookup node.labels "group") w u labelled in
      let (kube, got_kube) =
        kube_node-ok (c.get_kube_node node.spec.kubernetes_node_name u) v rest in
      (name, group, kube, u, named, got, got_kube)

  admitted_if_refers :
      (node : Node) (w v : W) → Grounded node w v → validate_create c node w ≡ (ok tt, v)
  unfolding validate_create
  admitted_if_refers node w v (name, group, kube, u, named, got, got_kube) =
      rw (named, got, got_kube)

  -- The webhook admits the creation of a Node resource exactly if its group label names a group that
  -- exists in its namespace and its Kubernetes node exists; an update is judged by the new object as
  -- a creation is, whatever the old one.
  pub admission-Grounded :
      (old node : Node) (w v : W)
      → ((validate_create c node w ≡ (ok tt, v)) ↔ Grounded node w v)
        × (validate_update c old node w ≡ validate_create c node w)
  unfolding validate_create validate_update
  admission-Grounded old node w v =
      ((refers_if_admitted node w v, admitted_if_refers node w v), refl)
