-- ===== src/Samples/World.antt =====
-- A cluster with one managed node, and an API server for it.
use Prim.Native.String.{◌++◌ as text_append}
use homelab_autoscaler.Prelude.{
  ℕ, ◌+◌, Bool, true, false, ◌&&◌, none, some, List, [], ◌∷◌, ◌++◌, str_eq, if◌then◌else◌,
}
use homelab_autoscaler.Action.{Act, Result, ok, err, not_found, conflict}
use homelab_autoscaler.Api.{
  PowerState, on, off, Progress, shutdown, ready, MinimalPodSpec, Node, Key, key_of, Group,
  KubeNode, Job, Taint,
}
use homelab_autoscaler.Api.Server.{same_key}
use homelab_autoscaler.Api.Client.{Client}

pub record Cluster : Type 0 where
  pub clock : ℕ
  pub node : Node
  pub kube : KubeNode
  pub jobs : List Job

abbrev pub pod : MinimalPodSpec
pod = record {
  image = "power";
  command = [];
  args = [];
  volumes = [];
  service_account = none;
  ttl_seconds_after_finished = none;
}

abbrev pub small_group : Group
small_group = record {
  name = "small";
  namespace = "homelab";
  uid = "g";
  scale_down_utilization_threshold = "0.5";
  scale_down_gpu_utilization_threshold = "0.5";
  scale_down_unneeded_time = none;
  scale_down_unready_time = none;
  max_node_provision_time = none;
  zero_or_max_node_scaling = false;
  ignore_daemon_sets_utilization = false;
  conditions = [];
}

abbrev pub node_in : PowerState → PowerState → Progress → Node
node_in desired power progress = record {
  name = "one";
  namespace = "homelab";
  uid = "n";
  resource_version = "1";
  labels = ("group", "small") ∷ [];
  annotations = none;
  owner_references = [];
  deletion_timestamp = none;
  spec = record {
    desired_power_state = desired;
    startup_pod_spec = pod;
    shutdown_pod_spec = pod;
    kubernetes_node_name = "metal";
    pricing = record { hourly_rate = "0.1"; pod_rate = "0.01" };
    taints_to_remove = [];
  };
  status = record {
    conditions = [];
    power_state = power;
    progress = progress;
    last_startup_time = none;
    last_shutdown_time = none;
  };
}

abbrev pub cordon_taint : Taint
cordon_taint = record {
  key = "node.kubernetes.io/unschedulable";
  value = "";
  effect = "NoSchedule";
}

abbrev pub gpu_taint : Taint
gpu_taint = record { key = "gpu"; value = "yes"; effect = "NoSchedule" }

abbrev pub metal : KubeNode
metal = record {
  name = "metal";
  uid = "k";
  resource_version = "1";
  labels = some (("infra.homecluster.dev/node", "one") ∷ []);
  provider_id = "";
  unschedulable = true;
  taints = cordon_taint ∷ gpu_taint ∷ [];
  conditions = (record { kind = "Ready"; status = true; reason = "" }) ∷ [];
}

abbrev pub cluster_of : Node → Cluster
cluster_of node = record { clock = 60_000_000_000; node = node; kube = metal; jobs = [] }

abbrev pub asleep : Node
asleep = node_in off off shutdown

abbrev pub awake : Node
awake = node_in on on ready

abbrev pub give : {A : Type 0} → Bool → A → Act Cluster A
give true a w = (ok a, w)
give false a w = (err not_found, w)

abbrev pub accepts : Cluster → Node → Bool
accepts w n =
    same_key (key_of w.node) (key_of n) && str_eq w.node.resource_version n.resource_version

-- A write brings a new version.
abbrev pub put : Bool → Node → Act Cluster Node
put true n w =
    let m : Node = record n { resource_version = text_append "1" n.resource_version } in
    (ok m, record w { node = m })
put false n w = (err conflict, w)

abbrev pub find_job : Key → List Job → Result Job
find_job k [] = err not_found
find_job k (j ∷ js) = let rest = find_job k js in if str_eq j.name k.name then ok j else rest

abbrev pub server : Client Cluster
server = record {
  now = λ w. (w.clock, record w { clock = w.clock + 1_000_000_000 });
  cancelled = λ w. (false, w);
  get_node = λ k w. give (same_key (key_of w.node) k) w.node w;
  update_node = λ n w. put (accepts w n) n w;
  update_node_status = λ n w. put (accepts w n) n w;
  list_nodes = λ w. (ok (w.node ∷ []), w);
  list_group_nodes = λ _ w. (ok (w.node ∷ []), w);
  get_group = λ k. give (str_eq k.name "small") small_group;
  list_groups = λ w. (ok (small_group ∷ []), w);
  update_group_status = λ g w. (ok g, w);
  get_kube_node = λ name w. give (str_eq name "metal") w.kube w;
  update_kube_node = λ k w. (ok k, record w { kube = k });
  patch_kube_node = λ _ k w. (ok k, record w { kube = k });
  get_job = λ k w. (find_job k w.jobs, w);
  create_job = λ j w. (ok tt, record w { jobs = w.jobs ++ j ∷ [] });
  list_jobs = λ _ _ w. (ok w.jobs, w);
  delete_job = λ _ w. (ok tt, record w { jobs = [] });
  retry_on_conflict = λ f. f;
  retry_node_on_conflict = λ f. f;
  sleep = λ d w. record w { clock = w.clock + d };
}
