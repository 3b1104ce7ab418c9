-- ===== src/Grpc/Groups/Statuses.antt =====
-- The errors that the node group queries of internal/grpcserver/server.go answer with.
use homelab_autoscaler.Prelude.{Option, String, List, [], ◌∷◌}
use homelab_autoscaler.Action.{Result, ok, err, Code, internal, invalid_argument}
use homelab_autoscaler.Action.Codes.{
  Answers, Answers-pure, Answers-attempt, Answers-or_else, Answers-bind, answers,
}
use homelab_autoscaler.Api.{Node, Group, KubeNode}
use homelab_autoscaler.Api.Client.{Client}
use homelab_autoscaler.Grpc.Groups.{
  groups_of, node_groups, group_with_sizes, of_group, of_kube_node, node_group_for_node,
  instances_of, provider_id_or_empty, node_group_nodes, pricing_node_price, node_group_get_options,
}

module _ {W : Type 0} (c : Client W) where
  groups_of-Answers : (gs : List Group) → Answers (internal ∷ []) (groups_of c gs)
  unfolding groups_of
  groups_of-Answers [] = search answers
  groups_of-Answers (g ∷ gs) =
      Answers-bind _ _ (Answers-or_else _ _)
        (λ nodes. Answers-bind _ _ (groups_of-Answers gs) (λ others. Answers-pure _))

  pub node_groups-Answers : Answers (internal ∷ []) (node_groups c)
  unfolding node_groups
  node_groups-Answers = search (answers, groups_of-Answers)

  of_group-Answers : (name group : String) (r : Result Group) → Answers [] (of_group c name group r)
  unfolding of_group group_with_sizes
  of_group-Answers name group (ok g) = search answers
  of_group-Answers name group (err e) = search answers

  of_kube_node-Answers :
      (name namespace : String) (r : Result KubeNode) → Answers [] (of_kube_node c name namespace r)
  unfolding of_kube_node
  of_kube_node-Answers name namespace (ok k) = search (answers, of_group-Answers)
  of_kube_node-Answers name namespace (err e) = search answers

  pub for_node-Answers :
      (namespace name : String) → Answers [] (node_group_for_node c namespace name)
  unfolding node_group_for_node
  for_node-Answers namespace name = search (answers, of_kube_node-Answers)

  instances_of-Answers :
      {codes : List Code} (nodes : List Node) → Answers codes (instances_of c nodes)
  unfolding instances_of
  instances_of-Answers [] = search answers
  instances_of-Answers (n ∷ ns) =
      Answers-bind _ _ (Answers-attempt (c.get_kube_node n.spec.kubernetes_node_name)) (λ kube.
        Answers-bind _ _ (instances_of-Answers ns)
          (λ others. Answers-pure (provider_id_or_empty c kube ∷ others)))

  pub nodes-Answers : (id : String) → Answers (invalid_argument ∷ []) (node_group_nodes c id)
  unfolding node_group_nodes
  nodes-Answers id = search (answers, instances_of-Answers)

module _ {W Float : Type 0} (c : Client W) (parse_float : String → Option Float)
    (zero_float : Float) where
  pub price-Answers :
      (namespace name : String)
      → Answers [] (pricing_node_price c parse_float zero_float namespace name)
  unfolding pricing_node_price
  price-Answers namespace name = search answers

  pub options-Answers :
      (namespace id : String)
      → Answers [] (node_group_get_options c parse_float zero_float namespace id)
  unfolding node_group_get_options
  options-Answers namespace id = search answers
