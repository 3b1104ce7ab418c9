-- ===== src/Fsm/KubeNodes.antt =====
-- The work on Kubernetes nodes of internal/fsm/node_state_machine.go: cordon, uncordon, the uncordon
-- with retries and the removal of the autoscaler's taint.
use homelab_autoscaler.Prelude.{
  ℕ, zero, suc, ◌*◌, String, Bool, true, false, not, ◌&&◌, Option, none, some, List, [], ◌∷◌, ltb,
  str_eq, if◌then◌else◌,
}
use homelab_autoscaler.Prelude.Int.{ℤ, sub_ℕ, ltb_ℤ}
use homelab_autoscaler.Prelude.Lists.{select, find_first, exists_in}
use homelab_autoscaler.Action.{Act, Result, ok, err, pure, raise, failure, attempt, ◌>>=◌, ◌>>◌}
use homelab_autoscaler.Api.{KubeNode, KubeCondition, Taint, second}
use homelab_autoscaler.Api.Client.{Client, sleep_for, time_now}
pub mod Cordons
pub mod Retries

abbrev pub unschedulable_key : String
unschedulable_key = "node.kubernetes.io/unschedulable"

abbrev pub deletion_key : String
deletion_key = "ToBeDeletedByClusterAutoscaler"

abbrev pub has_key : String → Taint → Bool
has_key key taint = str_eq taint.key key

-- What an uncordon makes of the node, or none if there is nothing to do.
unfoldable pub uncordoned : KubeNode → Option KubeNode
unfolding exists_in select
uncordoned k =
    let needs_taint_removal = exists_in (has_key unschedulable_key) k.taints in
    if not k.unschedulable && not needs_taint_removal
    then none
    else some (record k {
      unschedulable = false;
      taints =
          if needs_taint_removal
          then select (λ taint. not (has_key unschedulable_key taint)) k.taints
          else k.taints;
    })

-- The taints without the first one of the key.
unfoldable pub drop_first : String → List Taint → List Taint
drop_first key [] = []
drop_first key (taint ∷ taints) =
    let rest = drop_first key taints in if has_key key taint then taints else taint ∷ rest

-- The first condition of the type decides.
abbrev condition_holds : Option KubeCondition → Bool
condition_holds none = false
condition_holds (some condition) = condition.status

unfoldable pub is_ready_node : KubeNode → Bool
unfolding find_first
is_ready_node k =
    condition_holds
      (find_first (λ (condition : KubeCondition). str_eq condition.kind "Ready") k.conditions)

module _ {W : Type 0} (c : Client W) where
  cordon_found : Result KubeNode → Act W Unit
  cordon_found (err e) = pure tt
  cordon_found (ok k) =
      if k.unschedulable
      then pure tt
      else do c.update_kube_node (record k { unschedulable = true }); pure tt

  unfoldable pub set_node_unschedulable : String → Act W Unit
  unfolding cordon_found
  set_node_unschedulable name =
      if str_eq name ""
      then pure tt
      else do found ← attempt (c.get_kube_node name); cordon_found found

  store_if_changed : Option KubeNode → Act W Unit
  store_if_changed none = pure tt
  store_if_changed (some k) = do c.update_kube_node k; pure tt

  uncordon_found : Result KubeNode → Act W Unit
  unfolding store_if_changed
  uncordon_found (err e) = pure tt
  uncordon_found (ok k) = store_if_changed (uncordoned k)

  unfoldable pub set_node_schedulable_internal : String → Act W Unit
  unfolding uncordon_found
  set_node_schedulable_internal name =
      if str_eq name ""
      then pure tt
      else do found ← attempt (c.get_kube_node name); uncordon_found found

  -- The interval doubles up to ten seconds.
  abbrev pub next_interval : ℕ → ℕ
  next_interval interval =
      if ltb 10_000_000_000 (interval * 2) then 10_000_000_000 else interval * 2

  -- One round of the loop on the node that was read: whether the uncordon is done.
  unfoldable pub try_uncordon : String → Result KubeNode → Act W Bool
  try_uncordon name (err e) = pure false
  try_uncordon name (ok k) = if not (is_ready_node k) then pure false else do
    outcome ← attempt (set_node_schedulable_internal name)
    pure (elim outcome [ ok _ ↦ true | err _ ↦ false ])

  abbrev pub out_of_fuel : String
  out_of_fuel = "out of fuel"

  -- The loop; it ends by its time limit, and `fuel` bounds its rounds.
  unfoldable pub uncordon_loop : ℕ → String → ℤ → ℕ → ℕ → Act W Unit
  uncordon_loop zero name timeout start interval = raise (failure out_of_fuel)
  uncordon_loop (suc fuel) name timeout start interval =
      let again = uncordon_loop fuel name timeout start (next_interval interval) in
      do
        now ← time_now c
        if not (ltb_ℤ (sub_ℕ now start) timeout)
            then raise (failure "timeout: failed to uncordon node")
            else do
              found ← attempt (c.get_kube_node name)
              finished ← try_uncordon name found
              if finished then pure tt else (sleep_for c interval >> again)

  unfoldable pub set_node_schedulable_with_retry : ℕ → String → ℤ → Act W Unit
  unfolding uncordon_loop try_uncordon set_node_schedulable_internal
  set_node_schedulable_with_retry fuel name timeout =
      if str_eq name ""
      then pure tt
      else do start ← time_now c; uncordon_loop fuel name timeout start 2_000_000_000

  untaint_found : Result KubeNode → Act W Unit
  unfolding exists_in drop_first
  untaint_found (err e) = pure tt
  untaint_found (ok k) =
      if not (exists_in (has_key deletion_key) k.taints)
      then pure tt
      else do c.update_kube_node (record k { taints = drop_first deletion_key k.taints }); pure tt

  unfoldable pub remove_cluster_autoscaler_taint : String → Act W Unit
  unfolding untaint_found
  remove_cluster_autoscaler_taint name =
      if str_eq name ""
      then pure tt
      else do found ← attempt (c.get_kube_node name); untaint_found found
