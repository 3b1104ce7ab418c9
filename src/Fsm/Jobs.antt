-- ===== src/Fsm/Jobs.antt =====
-- The power jobs of internal/fsm/node_state_machine.go: createStartupJob, createShutdownJob,
-- setOwnerReference and cleanupPendingJobs.
pub mod Pods
use Prim.Native.String.{◌++◌ as text_append}
use homelab_autoscaler.Prelude.{
  ℕ, ◌/◌, String, Bool, true, not, ◌&&◌, ◌||◌, Option, none, some, List, [], ◌∷◌, ◌++◌, str_eq,
  ◌==◌, if◌then◌else◌,
}
use homelab_autoscaler.Prelude.Int.{ℤ, pos}
use homelab_autoscaler.Action.{Act, pure, attempt, wrap, ◌>>=◌, ◌>>◌}
use homelab_autoscaler.Api.{
  Node, Job, MinimalPodSpec, VolumeMountSpec, Volume, VolumeMount, VolumeSource, OwnerReference,
  second,
}
use homelab_autoscaler.Api.Maps.{StringMap, lookup, value_of}
use homelab_autoscaler.Api.Text.{Texts}
use homelab_autoscaler.Api.Client.{Client, time_now}

-- What differs between the two functions: the word in the names, and the pod.
pub data PowerJob : Type 0 where
  startup shutdown : PowerJob

abbrev pub word : PowerJob → String
word startup = "startup"
word shutdown = "shutdown"

abbrev pub pod_spec : PowerJob → Node → MinimalPodSpec
pod_spec startup n = n.spec.startup_pod_spec
pod_spec shutdown n = n.spec.shutdown_pod_spec

abbrev job_labels : PowerJob → Node → StringMap
job_labels kind n =
    ("app", "homelab-autoscaler")
    ∷ ("group", value_of n.labels "group")
    ∷ ("node", n.spec.kubernetes_node_name)
    ∷ ("type", word kind)
    ∷ []

unfoldable pub source_of : VolumeMountSpec → VolumeSource
source_of v =
    if not (str_eq v.secret_name "")
    then VolumeSource.secret v.secret_name
    else if not (str_eq v.config_map_name "")
    then VolumeSource.config_map v.config_map_name
    else VolumeSource.empty

-- The loop over the volumes appends a volume and its mount for each.
unfoldable pub volumes_of : List VolumeMountSpec → List Volume
unfolding source_of
volumes_of [] = []
volumes_of (v ∷ vs) = record { name = v.name; source = source_of v } ∷ volumes_of vs

unfoldable pub mounts_of : List VolumeMountSpec → List VolumeMount
mounts_of [] = []
mounts_of (v ∷ vs) =
    record { name = v.name; mount_path = v.mount_path; read_only = true } ∷ mounts_of vs

abbrev account_or_default : Option String → String
account_or_default none = "default"
account_or_default (some account) = account

abbrev ttl_or_default : Option ℤ → Option ℤ
ttl_or_default none = some (pos 600)
ttl_or_default (some ttl) = some ttl

-- `setOwnerReference`
unfoldable pub owner_reference : Node → OwnerReference
owner_reference n = record {
  api_version = "infra.homecluster.dev/v1alpha1";
  kind = "Node";
  name = n.name;
  uid = n.uid;
  controller = true;
}

unfoldable pub job_for : Texts → PowerJob → Node → ℕ → Job
unfolding volumes_of mounts_of owner_reference
job_for t kind n now =
    let pod = pod_spec kind n in
    record {
      name =
          text_append n.name (
            text_append "-" (text_append (word kind) (text_append "-" (t.decimal (now / second)))));
      namespace = n.namespace;
      labels = job_labels kind n;
      pod_labels = job_labels kind n;
      owner_references = owner_reference n ∷ [];
      restart_policy = "OnFailure";
      service_account_name = account_or_default pod.service_account;
      container_name = word kind;
      image = pod.image;
      command = pod.command;
      args = pod.args;
      volumes = volumes_of pod.volumes;
      volume_mounts = mounts_of pod.volumes;
      ttl_seconds_after_finished = ttl_or_default pod.ttl_seconds_after_finished;
      succeeded = 0;
      failed = 0;
    }

-- The jobs that the cleanup deletes: power jobs that have neither succeeded nor failed.
abbrev is_power_type : Option String → Bool
is_power_type none = Bool.false
is_power_type (some kind) = str_eq kind "startup" || str_eq kind "shutdown"

unfoldable pub is_pending : Job → Bool
unfolding lookup
is_pending job = is_power_type (lookup job.labels "type") && (job.succeeded == 0 && job.failed == 0)

module _ {W : Type 0} (c : Client W) (t : Texts) where
  unfoldable pub create_job : PowerJob → Node → Act W Job
  create_job kind n = do
    now ← time_now c
    c.create_job (job_for t kind n now)
    pure (job_for t kind n now)

  unfoldable pub create_startup_job : Node → Act W Job
  unfolding create_job
  create_startup_job = create_job startup

  unfoldable pub create_shutdown_job : Node → Act W Job
  unfolding create_job
  create_shutdown_job = create_job shutdown

  -- The loop over the jobs; a failed deletion is logged and passed over.
  unfoldable pub delete_pending : List Job → Act W Unit
  delete_pending [] = pure tt
  delete_pending (job ∷ jobs) =
      let rest = delete_pending jobs in
      if is_pending job then (do attempt (c.delete_job job); rest) else rest

  unfoldable pub cleanup_pending_jobs : Node → String → Act W Unit
  unfolding delete_pending is_pending
  cleanup_pending_jobs n name =
      if str_eq name ""
      then pure tt
      else do jobs ← wrap "failed to list jobs" (c.list_jobs n.namespace name); delete_pending jobs
