-- ===== src/Grpc/Template.antt =====
-- `NodeGroupTemplateNodeInfo` of internal/grpcserver/server.go: the node that the autoscaler is to
-- imagine when it thinks of scaling a group up. The encoder of Kubernetes objects is a parameter.
pub mod Taints
pub mod Statuses
use Prim.Native.String.{◌++◌ as text_append}
use homelab_autoscaler.Prelude.{
  ℕ, ◌/◌, String, Bool, true, false, ◌||◌, Option, none, some, List, [], ◌∷◌, not, str_eq,
  if◌then◌else◌,
}
use homelab_autoscaler.Prelude.Lists.{select, find_first, exists_in}
use homelab_autoscaler.Action.{
  Act, Result, ok, err, pure, raise, status, internal, unimplemented, is_not_found, attempt,
  or_status, ◌>>=◌,
}
use homelab_autoscaler.Api.{Node, KubeNode, KubeCondition, Taint, is_off, second}
use homelab_autoscaler.Api.Maps.{StringMap, value_of, delete}
use homelab_autoscaler.Api.Text.{Texts}
use homelab_autoscaler.Api.Client.{Client, time_now}

-- The first node that is off, else the first node.
unfoldable pub representative : List Node → Option Node
representative [] = none
representative (n ∷ ns) = elim (find_first (λ (m : Node). is_off m.status.power_state) (n ∷ ns)) [
  | none ↦ some n
  | some m ↦ some m
]

-- The keys of `removeKeys`: four fixed ones, and those of the node's own list.
abbrev static_keys : List String
static_keys =
    "node.kubernetes.io/unschedulable" ∷ "node.kubernetes.io/not-ready"
    ∷ "node.kubernetes.io/unreachable" ∷ "ToBeDeletedByClusterAutoscaler" ∷ []

unfoldable pub is_removed : Node → Taint → Bool
unfolding exists_in
is_removed n taint =
    exists_in (λ k. str_eq k taint.key) static_keys
    || exists_in (λ (t : Taint). str_eq t.key taint.key) n.spec.taints_to_remove

abbrev condition : String → Bool → String → KubeCondition
condition kind held reason = record { kind = kind; status = held; reason = reason }

abbrev pub template_conditions : List KubeCondition
template_conditions =
    condition "Ready" true "KubeletReady"
    ∷ condition "MemoryPressure" false "KubeletHasSufficientMemory"
    ∷ condition "DiskPressure" false "KubeletHasNoDiskPressure"
    ∷ condition "PIDPressure" false "KubeletHasSufficientPID"
    ∷ condition "NetworkUnavailable" false "RouteCreated"
    ∷ []

abbrev without_hostname : Option StringMap → Option StringMap
without_hostname none = none
without_hostname (some m) = some (delete m "kubernetes.io/hostname")

-- The node that stands in where the Kubernetes node does not exist.
unfoldable pub placeholder : Node → KubeNode
placeholder n = record {
  name = n.name;
  uid = "";
  resource_version = "";
  labels = some (("infra.homecluster.dev/group", value_of n.labels "group") ∷ []);
  provider_id = "";
  unschedulable = false;
  taints = [];
  conditions = condition "Ready" true "KubeletReady" ∷ [];
}

module _ (t : Texts) where
  abbrev template_name : String → ℕ → String
  template_name id now = text_append id (text_append "-template-" (t.decimal (now / second)))

  unfoldable pub template_of : String → ℕ → Node → KubeNode → KubeNode
  unfolding select is_removed
  template_of id now n k8s_node = record k8s_node {
    name = template_name id now;
    uid = "";
    resource_version = "";
    labels = without_hostname k8s_node.labels;
    conditions = template_conditions;
    taints = select (λ taint. not (is_removed n taint)) k8s_node.taints;
    unschedulable = false;
  }

module _ {W Bytes : Type 0} (c : Client W) (t : Texts) (marshal : KubeNode → Result Bytes) where
  kube_node_or_placeholder : Node → Result KubeNode → Act W KubeNode
  unfolding placeholder
  kube_node_or_placeholder n (ok k) = pure k
  kube_node_or_placeholder n (err e) =
      if is_not_found e then pure (placeholder n) else raise (status internal)

  abbrev encoded : Result Bytes → Act W Bytes
  encoded (ok b) = pure b
  encoded (err e) = raise (status internal)

  info_of : String → Option Node → Act W Bytes
  unfolding kube_node_or_placeholder template_of
  info_of id none = raise (status unimplemented)
  info_of id (some n) = do
    found ← attempt (c.get_kube_node n.name)
    k8s_node ← kube_node_or_placeholder n found
    now ← time_now c
    encoded (marshal (template_of t id now n k8s_node))

  unfoldable pub node_group_template_node_info : String → Act W Bytes
  unfolding info_of representative
  node_group_template_node_info id = do
    nodes ← or_status internal (c.list_group_nodes id)
    info_of id (representative nodes)
