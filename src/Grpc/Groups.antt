-- ===== src/Grpc/Groups.antt =====
-- The node group queries of internal/grpcserver/server.go, and the prices and options.
pub mod Answers
pub mod Statuses
use homelab_autoscaler.Prelude.{
  ℕ, String, Bool, false, ◌&&◌, Option, none, some, List, [], ◌∷◌, str_eq, ◌==◌, if◌then◌else◌,
}
use homelab_autoscaler.Prelude.Int.{ℤ, pos, negsuc}
use homelab_autoscaler.Prelude.Lists.{length, exists_in}
use homelab_autoscaler.Action.{
  Act, Result, ok, err, pure, raise, status, internal, invalid_argument, is_not_found, attempt,
  or_status, or_else, ◌>>=◌,
}
use homelab_autoscaler.Api.{Node, Group, KubeNode, is_on}
use homelab_autoscaler.Api.Maps.{StringMap, value_of}
use homelab_autoscaler.Api.Client.{Client}
use homelab_autoscaler.Grpc.Sizes.{to_int32}

-- `pb.NodeGroup`, without its debug text.
pub record NodeGroup : Type 0 where
  pub id : String
  pub min_size : ℤ
  pub max_size : ℤ

abbrev pub labels_of : KubeNode → StringMap
labels_of n = elim n.labels [ none ↦ [] | some m ↦ m ]

abbrev pub only_id : String → NodeGroup
only_id id = record { id = id; min_size = pos 0; max_size = pos 0 }

abbrev pub sized : String → ℕ → NodeGroup
sized id n = record { id = id; min_size = pos 0; max_size = to_int32 n }

-- What is left of an error of `List` that is `NotFound`, or that is nil.
abbrev absent : Result (List Node) → Bool
absent (ok _) = false
absent (err e) = is_not_found e

abbrev items : Result (List Node) → List Node
items (ok nodes) = nodes
items (err _) = []

module _ {W : Type 0} (c : Client W) where
  -- The loop over `groups.Items`.
  unfoldable pub groups_of : List Group → Act W (List NodeGroup)
  groups_of [] = pure []
  groups_of (g ∷ gs) =
      let rest = groups_of gs in
      do
        nodes ← or_else [] (c.list_group_nodes g.name)
        others ← rest
        pure (sized g.name (length nodes) ∷ others)

  unfoldable pub node_groups : Act W (List NodeGroup)
  unfolding groups_of to_int32
  node_groups = do groups ← or_status internal c.list_groups; groups_of groups

  unfoldable pub group_with_sizes : String → String → Act W NodeGroup
  unfolding exists_in to_int32
  group_with_sizes name group = do
    nodes ← or_else [] (c.list_group_nodes group)
    pure (
        if exists_in (λ (n : Node). str_eq n.name name && is_on n.status.power_state) nodes
        then only_id group
        else sized group (length nodes))

  of_group : String → String → Result Group → Act W NodeGroup
  unfolding group_with_sizes
  of_group name group (err e) = pure (only_id "")
  of_group name group (ok g) = group_with_sizes name group

  of_kube_node : String → String → Result KubeNode → Act W NodeGroup
  unfolding of_group value_of
  of_kube_node name namespace (err e) = pure (only_id "")
  of_kube_node name namespace (ok node) =
      let group = value_of (labels_of node) "infra.homecluster.dev/group" in
      if str_eq group "" then pure (only_id "") else do
        found ← attempt (c.get_group (record { name = group; namespace = namespace }))
        of_group name group found

  unfoldable pub node_group_for_node : String → String → Act W NodeGroup
  unfolding of_kube_node
  node_group_for_node namespace name = do
    node ← attempt (c.get_kube_node name)
    of_kube_node name namespace node

  provider_id_or_empty : Result KubeNode → String
  provider_id_or_empty (ok n) = n.provider_id
  provider_id_or_empty (err e) = ""

  -- The provider ids of the instances; every instance is reported as running.
  unfoldable pub instances_of : List Node → Act W (List String)
  unfolding provider_id_or_empty
  instances_of [] = pure []
  instances_of (n ∷ ns) =
      let rest = instances_of ns in
      do
        kube ← attempt (c.get_kube_node n.spec.kubernetes_node_name)
        others ← rest
        pure (provider_id_or_empty kube ∷ others)

  unfoldable pub node_group_nodes : String → Act W (List String)
  unfolding instances_of
  node_group_nodes id = do
    nodes ← attempt (c.list_group_nodes id)
    if absent nodes then raise (status invalid_argument) else instances_of (items nodes)

-- Go's float64, a parameter: what `strconv.ParseFloat` reads, and zero.
module _ {W Float : Type 0} (c : Client W) (parse_float : String → Option Float)
    (zero_float : Float) where
  float_or_zero : String → Float
  float_or_zero text = elim (parse_float text) [ none ↦ zero_float | some x ↦ x ]

  price_of : Result Node → Float
  unfolding float_or_zero
  price_of (err e) = zero_float
  price_of (ok n) = float_or_zero n.spec.pricing.hourly_rate

  unfoldable pub pricing_node_price : String → String → Act W Float
  unfolding price_of
  pricing_node_price namespace name = do
    node ← attempt (c.get_node (record { name = name; namespace = namespace }))
    pure (price_of node)

-- `toDurationPB`: a zero duration is as none.
unfoldable pub to_duration : Option ℤ → Option ℤ
to_duration none = none
to_duration (some (pos n)) = if n == 0 then none else some (pos n)
to_duration (some (negsuc n)) = some (negsuc n)

-- `pb.NodeGroupAutoscalingOptions`
pub record AutoscalingOptions (Float : Type 0) : Type 0 where
  pub scale_down_utilization_threshold : Float
  pub scale_down_gpu_utilization_threshold : Float
  pub scale_down_unneeded_duration : Option ℤ
  pub scale_down_unready_duration : Option ℤ
  pub max_node_provision_duration : Option ℤ
  pub zero_or_max_node_scaling : Bool
  pub ignore_daemon_sets_utilization : Bool

module _ {W Float : Type 0} (c : Client W) (parse_float : String → Option Float)
    (zero_float : Float) where
  options_of : Result Group → Option (AutoscalingOptions Float)
  unfolding to_duration float_or_zero
  options_of (err e) = none
  options_of (ok g) = some (record {
    scale_down_utilization_threshold =
        float_or_zero c parse_float zero_float g.scale_down_utilization_threshold;
    scale_down_gpu_utilization_threshold =
        float_or_zero c parse_float zero_float g.scale_down_gpu_utilization_threshold;
    scale_down_unneeded_duration = to_duration g.scale_down_unneeded_time;
    scale_down_unready_duration = to_duration g.scale_down_unready_time;
    max_node_provision_duration = to_duration g.max_node_provision_time;
    zero_or_max_node_scaling = g.zero_or_max_node_scaling;
    ignore_daemon_sets_utilization = g.ignore_daemon_sets_utilization;
  })

  -- No options, for the autoscaler's own defaults, where the group is not found.
  unfoldable pub node_group_get_options :
      String → String → Act W (Option (AutoscalingOptions Float))
  unfolding options_of
  node_group_get_options namespace id = do
    group ← attempt (c.get_group (record { name = id; namespace = namespace }))
    pure (options_of group)
