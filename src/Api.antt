-- ===== src/Api.antt =====
-- The resources that the program reads and writes: api/infra/v1alpha1/node_types.go and
-- group_types.go, with the fields of the Kubernetes types that the code uses. Times and durations
-- count nanoseconds. Message texts of conditions are left out.
pub mod Text
pub mod Power
pub mod Maps
pub mod Client
pub mod Server
use homelab_autoscaler.Prelude.{
  ℕ, ◌*◌, String, Bool, true, false, not, ◌&&◌, ◌||◌, Option, List, str_eq, if◌then◌else◌,
}
use homelab_autoscaler.Prelude.Int.{ℤ}
use Maps.{StringMap}

-- `type PowerState string`: the two constants, and any other text, the empty one included.
pub data PowerState : Type 0 where
  on off : PowerState
  unnamed : String → PowerState

-- `type Progress string`
pub data Progress : Type 0 where
  shutting_down shutdown starting_up ready : Progress
  unnamed : String → Progress

abbrev pub is_on : PowerState → Bool
is_on on = true
is_on _ = false

abbrev pub is_off : PowerState → Bool
is_off off = true
is_off _ = false

-- `p == ""`
abbrev pub is_empty : PowerState → Bool
is_empty (PowerState.unnamed s) = str_eq s ""
is_empty _ = false

abbrev pub is_shutting_down : Progress → Bool
is_shutting_down shutting_down = true
is_shutting_down _ = false

abbrev pub is_shutdown : Progress → Bool
is_shutdown shutdown = true
is_shutdown _ = false

abbrev pub is_starting_up : Progress → Bool
is_starting_up starting_up = true
is_starting_up _ = false

abbrev pub is_ready : Progress → Bool
is_ready ready = true
is_ready _ = false

-- The test `a == b` on power states.
abbrev pub same_power : PowerState → PowerState → Bool
same_power on on = true
same_power off off = true
same_power (PowerState.unnamed s) (PowerState.unnamed t) = str_eq s t
same_power _ _ = false

abbrev pub second : ℕ
second = 1_000_000_000

abbrev pub minute : ℕ
minute = 60_000_000_000

pub record VolumeMountSpec : Type 0 where
  pub name : String
  pub mount_path : String
  pub secret_name : String
  pub config_map_name : String

pub record MinimalPodSpec : Type 0 where
  pub image : String
  pub command : List String
  pub args : List String
  pub volumes : List VolumeMountSpec
  pub service_account : Option String
  pub ttl_seconds_after_finished : Option ℤ

pub record Taint : Type 0 where
  pub key : String
  pub value : String
  pub effect : String

pub record PricingSpec : Type 0 where
  pub hourly_rate : String
  pub pod_rate : String

pub record NodeSpec : Type 0 where
  pub desired_power_state : PowerState
  pub startup_pod_spec : MinimalPodSpec
  pub shutdown_pod_spec : MinimalPodSpec
  pub kubernetes_node_name : String
  pub pricing : PricingSpec
  pub taints_to_remove : List Taint

-- `metav1.Condition`
pub record Condition : Type 0 where
  pub kind : String
  pub status : Bool
  pub last_transition_time : ℕ
  pub reason : String

pub record NodeStatus : Type 0 where
  pub conditions : List Condition
  pub power_state : PowerState
  pub progress : Progress
  pub last_startup_time : Option ℕ
  pub last_shutdown_time : Option ℕ

pub record OwnerReference : Type 0 where
  pub api_version : String
  pub kind : String
  pub name : String
  pub uid : String
  pub controller : Bool

-- The custom resource Node.
pub record Node : Type 0 where
  pub name : String
  pub namespace : String
  pub uid : String
  pub resource_version : String
  pub labels : StringMap
  pub annotations : Option StringMap
  pub owner_references : List OwnerReference
  pub deletion_timestamp : Option ℕ
  pub spec : NodeSpec
  pub status : NodeStatus

pub record Key : Type 0 where
  pub name : String
  pub namespace : String

-- `client.ObjectKeyFromObject`
abbrev pub key_of : Node → Key
key_of n = record { name = n.name; namespace = n.namespace }

pub record Group : Type 0 where
  pub name : String
  pub namespace : String
  pub uid : String
  pub scale_down_utilization_threshold : String
  pub scale_down_gpu_utilization_threshold : String
  pub scale_down_unneeded_time : Option ℤ
  pub scale_down_unready_time : Option ℤ
  pub max_node_provision_time : Option ℤ
  pub zero_or_max_node_scaling : Bool
  pub ignore_daemon_sets_utilization : Bool
  pub conditions : List Condition

-- `corev1.Node`, with the condition statuses as the code tests them: `== ConditionTrue`.
pub record KubeCondition : Type 0 where
  pub kind : String
  pub status : Bool
  pub reason : String

pub record KubeNode : Type 0 where
  pub name : String
  pub uid : String
  pub resource_version : String
  pub labels : Option StringMap
  pub provider_id : String
  pub unschedulable : Bool
  pub taints : List Taint
  pub conditions : List KubeCondition

pub data VolumeSource : Type 0 where
  empty : VolumeSource
  secret config_map : String → VolumeSource

pub record Volume : Type 0 where
  pub name : String
  pub source : VolumeSource

pub record VolumeMount : Type 0 where
  pub name : String
  pub mount_path : String
  pub read_only : Bool

-- `batchv1.Job` with its one container.
pub record Job : Type 0 where
  pub name : String
  pub namespace : String
  pub labels : StringMap
  pub pod_labels : StringMap
  pub owner_references : List OwnerReference
  pub restart_policy : String
  pub service_account_name : String
  pub container_name : String
  pub image : String
  pub command : List String
  pub args : List String
  pub volumes : List Volume
  pub volume_mounts : List VolumeMount
  pub ttl_seconds_after_finished : Option ℤ
  pub succeeded : ℕ
  pub failed : ℕ
