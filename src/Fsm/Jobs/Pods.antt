-- ===== src/Fsm/Jobs/Pods.antt =====
-- The pods of the power jobs (internal/fsm/node_state_machine.go), and what the cleanup before an
-- operation deletes.
use homelab_autoscaler.Prelude.{
  String, ◌≢◌, ◌++◌, str_eq_of_ne, ℕ, ap, sym, ◌∙◌, map, true, ◌≡◌, refl, inl, inr, List, [], ◌∷◌,
  Bool-cases,
}
use homelab_autoscaler.Prelude.Lists.{select, All, select-kept}
use homelab_autoscaler.Action.{ok}
use homelab_autoscaler.Api.{Job, Node, Volume, VolumeMount, VolumeMountSpec}
use homelab_autoscaler.Api.Maps.{lookup}
use homelab_autoscaler.Api.Text.{Texts}
use homelab_autoscaler.Api.Client.{Client}
use homelab_autoscaler.Fsm.Jobs.{
  PowerJob, startup, shutdown, pod_spec, volumes_of, mounts_of, job_for, is_pending, delete_pending,
  cleanup_pending_jobs,
}

module _ {W : Type 0} (c : Client W) (t : Texts) where
  -- The states that the deletion of each job of a list leaves, one after the other.
  abbrev pub deleted : List Job → W → W
  deleted [] w = w
  deleted (job ∷ jobs) w = deleted jobs (c.delete_job job w).1

  -- The loop always ends well, and has tried to delete the power jobs that are still pending, each
  -- once and in the order of the list, and no other job, whether or not a deletion failed.
  pub delete_pending_lem :
      (jobs : List Job) (w : W)
      → delete_pending c t jobs w ≡ (ok tt, deleted (select is_pending jobs) w)
  unfolding delete_pending select
  delete_pending_lem [] w = refl
  delete_pending_lem (job ∷ jobs) w = elim (Bool-cases (is_pending job)) [
    | inl h ↦ rw (h, select) (delete_pending_lem jobs (c.delete_job job w).1)
    | inr h ↦ rw (h, select) (delete_pending_lem jobs w)
  ]

volumes_named :
    (vs : List VolumeMountSpec)
    → map (λ (v : Volume). v.name) (volumes_of vs) ≡ map (λ (v : VolumeMountSpec). v.name) vs
unfolding volumes_of
volumes_named [] = refl
volumes_named (v ∷ vs) = ap (λ l. v.name ∷ l) (volumes_named vs)

mounts_named :
    (vs : List VolumeMountSpec)
    → map (λ (m : VolumeMount). m.name) (mounts_of vs) ≡ map (λ (v : VolumeMountSpec). v.name) vs
unfolding mounts_of
mounts_named [] = refl
mounts_named (v ∷ vs) = ap (λ l. v.name ∷ l) (mounts_named vs)

mounts_read_only :
    (vs : List VolumeMountSpec) → All (λ (m : VolumeMount). m.read_only ≡ true) (mounts_of vs)
unfolding mounts_of
mounts_read_only [] = tt
mounts_read_only (v ∷ vs) = (refl, mounts_read_only vs)

-- A power job mounts every volume that its pod spec declares exactly once, in their order and under
-- their names, and all of them read-only; and as long as it has neither succeeded nor failed, it is one
-- of those that the cleanup before the next operation deletes.
pub job_for_lem :
    (t : Texts) (kind : PowerJob) (n : Node) (now : ℕ)
    → (map (λ (v : Volume). v.name) (job_for t kind n now).volumes
        ≡ map (λ (v : VolumeMountSpec). v.name) (pod_spec kind n).volumes)
      × (map (λ (m : VolumeMount). m.name) (job_for t kind n now).volume_mounts
          ≡ map (λ (v : Volume). v.name) (job_for t kind n now).volumes)
      × All (λ (m : VolumeMount). m.read_only ≡ true) (job_for t kind n now).volume_mounts
      × (is_pending (job_for t kind n now) ≡ true)
unfolding job_for is_pending lookup
job_for_lem t kind n now =
    let vs = (pod_spec kind n).volumes in
    (volumes_named vs, mounts_named vs ∙ sym (volumes_named vs), mounts_read_only vs, pending kind)
  where
    pending : (kind : PowerJob) → is_pending (job_for t kind n now) ≡ true
    pending startup = refl
    pending shutdown = refl

module _ {W : Type 0} (c : Client W) (t : Texts) where
  -- The cleanup before an operation takes away the jobs of earlier ones: for a node with a Kubernetes
  -- node, if the jobs with its label are listed, and the job of an earlier operation (of whatever kind,
  -- at whatever time, from whatever copy of the node) is among them as it was created, the cleanup
  -- succeeds, and it has tried to delete that job and the other power jobs that have neither succeeded
  -- nor failed, each once and in the order of the list, and no other job.
  pub cleanup_deletes :
      (n m : Node) (name : String) (kind : PowerJob) (now : ℕ) (before after : List Job) (w v : W)
      → name ≢ ""
      → c.list_jobs n.namespace name w ≡ (ok (before ++ job_for t kind m now ∷ after), v)
      → cleanup_pending_jobs c t n name w ≡ (
        ok tt,
        deleted c t (select is_pending before ++ job_for t kind m now ∷ select is_pending after) v,
      )
  unfolding cleanup_pending_jobs
  cleanup_deletes n m name kind now before after w v named listed =
      rw (str_eq_of_ne name "" named, listed)
        (delete_pending_lem c t (before ++ job_for t kind m now ∷ after) v
          ∙ ap (λ (l : List Job). (ok tt, deleted c t l v))
              (select-kept is_pending before after (job_for t kind m now)
                (job_for_lem t kind m now).3))
