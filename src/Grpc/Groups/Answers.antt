-- ===== src/Grpc/Groups/Answers.antt =====
-- What the node group queries of internal/grpcserver/server.go answer.
use homelab_autoscaler.Prelude.{
  String, ◌≡◌, refl, ◌⊎◌, inl, inr, ◌&&◌, List, [], ◌∷◌, map, ap₂, ◌∙◌, Bool-cases, str_eq,
  if◌then◌else◌,
}
use homelab_autoscaler.Prelude.Lists.{length, exists_in}
use homelab_autoscaler.Action.{Act, Result, ok, err, caught, continue, defaulted, pure}
use homelab_autoscaler.Api.{Node, Group, KubeNode, is_on}
use homelab_autoscaler.Api.Maps.{value_of}
use homelab_autoscaler.Api.Client.{Client}
use homelab_autoscaler.Grpc.Groups.{
  NodeGroup, labels_of, only_id, sized, groups_of, node_groups, group_with_sizes, of_group,
  of_kube_node, node_group_for_node,
}

-- The action succeeded, with an answer of which P holds.
abbrev pub Succeeds : {W A : Type 0} → (A → Type 0) → Result A × W → Type 0
Succeeds P (ok a, w) = P a
Succeeds P (err e, w) = ⊥

abbrev pub ids : List NodeGroup → List String
ids = map (λ (g : NodeGroup). g.id)

abbrev pub names : List Group → List String
names = map (λ (g : Group). g.name)

module _ {W : Type 0} where
  add_rest :
      (n : NodeGroup) (g : Group) (gs : List Group) (r : Result (List NodeGroup) × W)
      → n.id ≡ g.name
      → Succeeds (λ answer. ids answer ≡ names gs) r
      → Succeeds (λ answer. ids answer ≡ names (g ∷ gs)) (continue r (λ others. pure (n ∷ others)))
  add_rest n g gs (ok others, v) e h = ap₂ (λ (x : String) (xs : List String). x ∷ xs) e h
  add_rest n g gs (err e', v) e h = absurd h

  add_group :
      (g : Group) (gs : List Group) (rest : Act W (List NodeGroup)) (r : Result (List Node) × W)
      → ((w : W) → Succeeds (λ answer. ids answer ≡ names gs) (rest w))
      → Succeeds
          (λ answer. ids answer ≡ names (g ∷ gs))
          (continue
            (defaulted [] r)
            (λ nodes v. continue (rest v) (λ others. pure (sized g.name (length nodes) ∷ others))))
  add_group g gs rest (ok nodes, v) h =
      add_rest (sized g.name (length nodes)) g gs (rest v) refl (h v)
  add_group g gs rest (err e, v) h = add_rest (sized g.name 0) g gs (rest v) refl (h v)

module _ {W : Type 0} (c : Client W) where
  groups_of-ids :
      (gs : List Group) (w : W) → Succeeds (λ answer. ids answer ≡ names gs) (groups_of c gs w)
  unfolding groups_of
  groups_of-ids [] w = refl
  groups_of-ids (g ∷ gs) w =
      add_group g gs (groups_of c gs) (c.list_group_nodes g.name w) (groups_of-ids gs)

  -- Once the groups are listed, `NodeGroups` answers with one node group for each of them, by name
  -- and in their order, whether the listings of their nodes succeed or fail.
  pub node_groups-names :
      (gs : List Group) (w v : W)
      → c.list_groups w ≡ (ok gs, v)
      → Succeeds (λ answer. ids answer ≡ names gs) (node_groups c w)
  unfolding node_groups
  node_groups-names gs w v h = rw h (groups_of-ids gs v)

  -- The answer names no group, or the group of the label that the Kubernetes node had.
  abbrev pub Answer : String → W → NodeGroup → Type 0
  Answer name w g =
      (g.id ≡ "")
      ⊎ ((k : KubeNode) × (v : W) × (c.get_kube_node name w ≡ (ok k, v))
          × (g.id ≡ value_of (labels_of k) "infra.homecluster.dev/group"))

  sizes-id :
      (name group : String) (r : Result (List Node) × W)
      → Succeeds
          (λ (g : NodeGroup). g.id ≡ group)
          (continue (defaulted [] r) (λ nodes. pure (
            if exists_in (λ (n : Node). str_eq n.name name && is_on n.status.power_state) nodes
            then only_id group
            else sized group (length nodes))))
  sizes-id name group (ok nodes, v) =
      elim (Bool-cases
        (exists_in (λ (n : Node). str_eq n.name name && is_on n.status.power_state) nodes)) [
          | inl e ↦ rw e
          | inr e ↦ rw e
        ]
  sizes-id name group (err e, v) = unfold exists_in in refl

  with_group :
      (name group : String) (w : W) (k : KubeNode) (v : W)
      → c.get_kube_node name w ≡ (ok k, v)
      → group ≡ value_of (labels_of k) "infra.homecluster.dev/group"
      → (r : Result NodeGroup × W) → Succeeds (λ (g : NodeGroup). g.id ≡ group) r
      → Succeeds (Answer name w) r
  with_group name group w k v got e (ok g, u) h = inr (k, v, got, h ∙ e)
  with_group name group w k v got e (err x, u) h = absurd h

  group_found :
      (name group : String) (w : W) (k : KubeNode) (v : W)
      → c.get_kube_node name w ≡ (ok k, v)
      → group ≡ value_of (labels_of k) "infra.homecluster.dev/group"
      → (r : Result Group × W)
      → Succeeds (Answer name w) (continue (caught r) (of_group c name group))
  unfolding of_group group_with_sizes
  group_found name group w k v got e (ok g, u) =
      with_group name group w k v got e _ (sizes-id name group (c.list_group_nodes group u))
  group_found name group w k v got e (err x, u) = inl refl

  kube_node_found :
      (namespace name : String) (w : W) (r : Result KubeNode × W)
      → c.get_kube_node name w ≡ r
      → Succeeds (Answer name w) (continue (caught r) (of_kube_node c name namespace))
  unfolding of_kube_node
  kube_node_found namespace name w (err e, v) got = inl refl
  kube_node_found namespace name w (ok k, v) got =
      elim (Bool-cases (str_eq (value_of (labels_of k) "infra.homecluster.dev/group") "")) [
        | inl e ↦ rw e (inl refl)
        | inr e ↦ rw e (
            group_found name _ w k v got refl (
              c.get_group
                (record {
                  name = value_of (labels_of k) "infra.homecluster.dev/group";
                  namespace = namespace;
                })
                v))
      ]

  -- `NodeGroupForNode` never fails, whatever the API server answers, and the group that it names is
  -- none or the one of the label that it read on the Kubernetes node.
  pub node_group_for_node-Answer :
      (namespace name : String) (w : W)
      → Succeeds (Answer name w) (node_group_for_node c namespace name w)
  unfolding node_group_for_node
  node_group_for_node-Answer namespace name w =
      kube_node_found namespace name w (c.get_kube_node name w) refl
