-- ===== src/Api/Client.antt =====
-- The API server as the program calls it (`client.Client` of controller-runtime, client-go's
-- `RetryOnConflict` and the clock). None of it is part of the repository: it is a parameter. Every
-- call may change the state `W`, so the acts of others between two calls are part of the calls.
use homelab_autoscaler.Prelude.{ℕ, String, Bool, List}
use homelab_autoscaler.Action.{Act, ok}
use homelab_autoscaler.Api.{Node, Key, Group, KubeNode, Job}

pub record Client (W : Type 0) : Type 0 where
  -- `time.Now()`
  pub now : W → ℕ × W
  -- `ctx.Err() != nil`
  pub cancelled : W → Bool × W
  pub get_node : Key → Act W Node
  -- `Update` and `Status().Update` leave the server's copy in the object they are given.
  pub update_node : Node → Act W Node
  pub update_node_status : Node → Act W Node
  pub list_nodes : Act W (List Node)
  -- `List` with the label selector `group=…`
  pub list_group_nodes : String → Act W (List Node)
  pub get_group : Key → Act W Group
  pub list_groups : Act W (List Group)
  pub update_group_status : Group → Act W Group
  pub get_kube_node : String → Act W KubeNode
  pub update_kube_node : KubeNode → Act W KubeNode
  -- `Patch` with `MergeFrom`: the object before and after
  pub patch_kube_node : KubeNode → KubeNode → Act W KubeNode
  pub get_job : Key → Act W Job
  pub create_job : Job → Act W (Unit {0})
  -- `List` in a namespace with the label selector `node=…`
  pub list_jobs : String → String → Act W (List Job)
  pub delete_job : Job → Act W (Unit {0})
  -- `retry.RetryOnConflict(retry.DefaultRetry, …)`
  pub retry_on_conflict : Act W (Unit {0}) → Act W (Unit {0})
  -- The same, for a function that assigns a node of its caller's when it succeeds.
  pub retry_node_on_conflict : Act W Node → Act W Node
  -- `time.Sleep`
  pub sleep : ℕ → W → W

-- The calls that cannot fail, as actions.
module _ {W : Type 0} (c : Client W) where
  unfoldable pub time_now : Act W ℕ
  time_now w = (ok (c.now w).0, (c.now w).1)

  unfoldable pub context_over : Act W Bool
  context_over w = (ok (c.cancelled w).0, (c.cancelled w).1)

  unfoldable pub sleep_for : ℕ → Act W Unit
  sleep_for d w = (ok tt, c.sleep d w)
