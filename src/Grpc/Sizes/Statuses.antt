-- ===== src/Grpc/Sizes/Statuses.antt =====
-- The errors that the size operations of internal/grpcserver/server.go answer with.
use mathlib.Core.List.{Mem}
use homelab_autoscaler.Prelude.{ℕ, zero, suc, Bool, Option, none, some, String, List, [], ◌∷◌}
use homelab_autoscaler.Prelude.Int.{ℤ}
use homelab_autoscaler.Action.{
  Code, internal, deadline_exceeded, invalid_argument, failed_precondition,
}
use homelab_autoscaler.Action.Codes.{Answers, Answers-then, answers}
use homelab_autoscaler.Api.{Node}
use homelab_autoscaler.Api.Client.{Client, context_over}
use homelab_autoscaler.Grpc.Sizes.{
  check_context, node_group_target_size, start_found, node_group_increase_size, delete_one,
  delete_each, node_group_delete_nodes, shut_down, shut_down_first, shut_down_oldest,
  node_group_decrease_target_size,
}

module _ {W : Type 0} (c : Client W) where
  check_context-Answers :
      {codes : List Code} → Mem deadline_exceeded codes → Answers codes (check_context c)
  unfolding check_context context_over
  check_context-Answers m = search answers

  pub target_size-Answers :
      (id : String) → Answers (deadline_exceeded ∷ internal ∷ []) (node_group_target_size c id)
  unfolding node_group_target_size
  target_size-Answers id = search (answers, check_context-Answers)

  start_found-Answers :
      (found : Option Node)
      → Answers
          (deadline_exceeded ∷ invalid_argument ∷ failed_precondition ∷ internal ∷ [])
          (start_found c found)
  unfolding start_found
  start_found-Answers none = search answers
  start_found-Answers (some node) = search answers depth 8

  pub increase_size-Answers :
      (id : String) (delta : ℤ)
      → Answers
          (deadline_exceeded ∷ invalid_argument ∷ failed_precondition ∷ internal ∷ [])
          (node_group_increase_size c id delta)
  unfolding node_group_increase_size
  increase_size-Answers id delta =
      search (answers, check_context-Answers, start_found-Answers) depth 8

  delete_one-Answers :
      (namespace name : String)
      → Answers (deadline_exceeded ∷ internal ∷ []) (delete_one c namespace name)
  unfolding delete_one
  delete_one-Answers namespace name = search (answers, check_context-Answers) depth 8

  delete_each-Answers :
      (namespace : String) (names : List String)
      → Answers (deadline_exceeded ∷ internal ∷ []) (delete_each c namespace names)
  unfolding delete_each
  delete_each-Answers namespace [] = search answers
  delete_each-Answers namespace (name ∷ names) =
      Answers-then _ _ (delete_one-Answers namespace name) (delete_each-Answers namespace names)

  pub delete_nodes-Answers :
      (namespace : String) (names : List String)
      → Answers (deadline_exceeded ∷ internal ∷ []) (node_group_delete_nodes c namespace names)
  unfolding node_group_delete_nodes
  delete_nodes-Answers namespace names =
      search (answers, check_context-Answers, delete_each-Answers) depth 8

  module _ (sort_slice : (Node → Node → Bool) → List Node → List Node) where
    shut_down-Answers :
        (node : Node)
        → Answers
            (deadline_exceeded ∷ invalid_argument ∷ internal ∷ [])
            (shut_down c sort_slice node)
    unfolding shut_down
    shut_down-Answers node = search answers depth 8

    shut_down_first-Answers :
        (k : ℕ) (nodes : List Node)
        → Answers
            (deadline_exceeded ∷ invalid_argument ∷ internal ∷ [])
            (shut_down_first c sort_slice k nodes)
    unfolding shut_down_first
    shut_down_first-Answers zero nodes = search answers
    shut_down_first-Answers (suc k) [] = search answers
    shut_down_first-Answers (suc k) (node ∷ nodes) =
        Answers-then _ _ (shut_down-Answers node) (shut_down_first-Answers k nodes)

    pub decrease_size-Answers :
        (id : String) (delta : ℤ)
        → Answers
            (deadline_exceeded ∷ invalid_argument ∷ internal ∷ [])
            (node_group_decrease_target_size c sort_slice id delta)
    unfolding node_group_decrease_target_size shut_down_oldest
    decrease_size-Answers id delta =
        search (answers, check_context-Answers, shut_down_first-Answers) depth 8
