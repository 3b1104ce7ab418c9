-- ===== src/Grpc/Sizes.antt =====
-- The size operations of internal/grpcserver/server.go: target size, increase, delete, decrease.
pub mod Target
pub mod Increase
pub mod Capacity
pub mod Delete
pub mod Decrease
pub mod Orders
pub mod Lags
pub mod Shrinks
pub mod Statuses
use homelab_autoscaler.Prelude.{
  ℕ, zero, suc, ◌+◌, ◌-◌, ◌%◌, ◌^◌, String, Bool, true, false, not, ◌&&◌, ◌||◌, Option, none, some,
  List, [], ◌∷◌, ltb, if◌then◌else◌,
}
use homelab_autoscaler.Prelude.Int.{ℤ, pos, negsuc, pos_part, ◌+ℤ◌, ltb_ℤ}
use homelab_autoscaler.Prelude.Lists.{length, select, find_first}
use homelab_autoscaler.Action.{
  Act, pure, raise, status, internal, deadline_exceeded, invalid_argument, failed_precondition,
  or_status, when, ◌>>=◌, ◌>>◌,
}
use homelab_autoscaler.Api.{
  Node, Key, PowerState, on, off, Progress, shutting_down, is_on, is_off, is_shutting_down,
  is_shutdown, is_starting_up, is_ready,
}
use homelab_autoscaler.Api.Client.{Client, context_over}

-- `int32(n)` of a Go int
unfoldable pub to_int32 : ℕ → ℤ
to_int32 n = let u = n % 2 ^ 32 in if ltb u (2 ^ 31) then pos u else negsuc (2 ^ 32 - u - 1)

abbrev pub set_desired : Node → PowerState → Node
set_desired n p = record n { spec = record n.spec { desired_power_state = p } }

abbrev pub set_progress : Node → Progress → Node
set_progress n p = record n { status = record n.status { progress = p } }

unfoldable pub counts : Node → Bool
counts n = not (is_shutting_down n.status.progress) && not (is_shutdown n.status.progress)

unfoldable pub count_target : List Node → ℕ
count_target [] = 0
count_target (n ∷ ns) = let rest = count_target ns in if counts n then suc rest else rest

-- The node that an increase wakes: meant to be off, off, and shut down.
unfoldable pub can_start : Node → Bool
can_start n =
    is_off n.spec.desired_power_state
    && is_off n.status.power_state
    && is_shutdown n.status.progress

module _ {W : Type 0} (c : Client W) where
  -- `if ctx.Err() != nil { return DeadlineExceeded }`
  unfoldable pub check_context : Act W Unit
  check_context = do over ← context_over c; when over (raise (status deadline_exceeded))

  unfoldable pub node_group_target_size : String → Act W ℤ
  unfolding check_context to_int32 count_target counts
  node_group_target_size id = do
    check_context
    nodes ← or_status internal (c.list_group_nodes id)
    pure (to_int32 (count_target nodes))

  start_found : Option Node → Act W Unit
  start_found none = raise (status failed_precondition)
  start_found (some node) = do or_status internal (c.update_node (set_desired node on)); pure tt

  unfoldable pub node_group_increase_size : String → ℤ → Act W Unit
  unfolding check_context start_found
  node_group_increase_size id delta = do
    check_context
    when (not (ltb_ℤ (pos 0) delta)) (raise (status invalid_argument))
    nodes ← or_status internal (c.list_group_nodes id)
    start_found (find_first can_start nodes)

  -- The body of the loop over `req.Nodes`, given by name; `namespace` is the configured one.
  unfoldable pub delete_one : String → String → Act W Unit
  unfolding check_context
  delete_one namespace name = do
    check_context
    node ← or_status internal (c.get_node (record { name = name; namespace = namespace }))
    or_status internal (c.update_node (set_desired node off))
    pure tt

  unfoldable pub delete_each : String → List String → Act W Unit
  unfolding delete_one
  delete_each namespace [] = pure tt
  delete_each namespace (name ∷ names) =
      let rest = delete_each namespace names in do delete_one namespace name; rest

  unfoldable pub node_group_delete_nodes : String → List String → Act W Unit
  unfolding check_context delete_each
  node_group_delete_nodes namespace names = do check_context; delete_each namespace names

unfoldable pub is_powered_on : Node → Bool
is_powered_on n =
    is_on n.spec.desired_power_state && is_on n.status.power_state && is_ready n.status.progress

-- The `else if`: the first test has failed.
unfoldable pub is_booting : Node → Bool
unfolding is_powered_on
is_booting n =
    not (is_powered_on n)
    && (is_on n.spec.desired_power_state
        && is_off n.status.power_state
        && is_starting_up n.status.progress)

abbrev before : Option ℕ → Option ℕ → Bool
before none _ = false
before (some s) none = true
before (some s) (some u) = ltb s u

-- The comparison that `sort.Slice` is given.
unfoldable pub started_before : Node → Node → Bool
started_before a b = before a.status.last_startup_time b.status.last_startup_time

unfoldable pub new_desired_size : ℕ → ℤ → ℕ
new_desired_size powered_on delta = pos_part (to_int32 powered_on +ℤ delta)

unfoldable pub nodes_to_shutdown : ℕ → ℕ → ℤ → ℕ
unfolding new_desired_size to_int32 ◌+ℤ◌
nodes_to_shutdown powered_on starting delta =
    pos_part (to_int32 starting) - new_desired_size powered_on delta

module _ {W : Type 0} (c : Client W)
    (sort_slice : (Node → Node → Bool) → List Node → List Node) where
  -- The body of the loop, for one node.
  unfoldable pub shut_down : Node → Act W Unit
  shut_down node = do
    updated ← or_status internal (c.update_node (set_desired node off))
    or_status internal (c.update_node_status (set_progress updated shutting_down))
    pure tt

  unfoldable pub shut_down_first : ℕ → List Node → Act W Unit
  shut_down_first zero nodes = pure tt
  shut_down_first (suc k) [] = pure tt
  shut_down_first (suc k) (node ∷ nodes) =
      let rest = shut_down_first k nodes in do shut_down node; rest

  -- What follows the listing of the group: the choice, the sort and the loop.
  unfoldable pub shut_down_oldest : List Node → ℤ → Act W Unit
  unfolding shut_down_first nodes_to_shutdown is_booting is_powered_on
  shut_down_oldest nodes delta =
      let booting = select is_booting nodes in
      shut_down_first
        (nodes_to_shutdown (length (select is_powered_on nodes)) (length booting) delta)
        (sort_slice started_before booting)

  unfoldable pub node_group_decrease_target_size : String → ℤ → Act W Unit
  unfolding check_context shut_down_oldest
  node_group_decrease_target_size id delta = do
    check_context c
    when (not (ltb_ℤ delta (pos 0))) (raise (status invalid_argument))
    nodes ← or_status internal (c.list_group_nodes id)
    shut_down_oldest nodes delta
