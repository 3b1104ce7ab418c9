-- ===== src/Grpc/Statuses.antt =====
-- The errors that the calls of internal/grpcserver/server.go answer with, all of them together.
use homelab_autoscaler.Prelude.{Bool, Option, String, List, [], ◌∷◌}
use homelab_autoscaler.Prelude.Int.{ℤ}
use homelab_autoscaler.Action.{
  Result, internal, deadline_exceeded, invalid_argument, failed_precondition, unimplemented,
}
use homelab_autoscaler.Action.Codes.{Answers}
use homelab_autoscaler.Api.{Node, KubeNode}
use homelab_autoscaler.Api.Text.{Texts}
use homelab_autoscaler.Api.Client.{Client}
use homelab_autoscaler.Grpc.Sizes.{
  node_group_target_size, node_group_increase_size, node_group_delete_nodes,
  node_group_decrease_target_size,
}
use homelab_autoscaler.Grpc.Sizes.Statuses.{
  target_size-Answers, increase_size-Answers, delete_nodes-Answers, decrease_size-Answers,
}
use homelab_autoscaler.Grpc.Groups.{
  node_groups, node_group_for_node, node_group_nodes, pricing_node_price, node_group_get_options,
}
use homelab_autoscaler.Grpc.Groups.Statuses.{
  node_groups-Answers, for_node-Answers, nodes-Answers, price-Answers, options-Answers,
}
use homelab_autoscaler.Grpc.Template.{node_group_template_node_info}
use homelab_autoscaler.Grpc.Template.Statuses.{template-Answers}

module _ {W Bytes Float : Type 0} (c : Client W) (t : Texts) (marshal : KubeNode → Result Bytes)
    (parse_float : String → Option Float) (zero_float : Float)
    (sort_slice : (Node → Node → Bool) → List Node → List Node) where
  -- What each call may answer beside its result, in a request for these arguments.
  abbrev pub Typed : String → String → String → ℤ → List String → Type 0
  Typed namespace id name delta names =
      Answers [] (node_group_for_node c namespace name)
      × Answers [] (pricing_node_price c parse_float zero_float namespace name)
      × Answers [] (node_group_get_options c parse_float zero_float namespace id)
      × Answers (internal ∷ []) (node_groups c)
      × Answers (invalid_argument ∷ []) (node_group_nodes c id)
      × Answers (internal ∷ unimplemented ∷ []) (node_group_template_node_info c t marshal id)
      × Answers (deadline_exceeded ∷ internal ∷ []) (node_group_target_size c id)
      × Answers (deadline_exceeded ∷ internal ∷ []) (node_group_delete_nodes c namespace names)
      × Answers (deadline_exceeded ∷ invalid_argument ∷ internal ∷ [])
          (node_group_decrease_target_size c sort_slice id delta)
      × Answers (deadline_exceeded ∷ invalid_argument ∷ failed_precondition ∷ internal ∷ [])
          (node_group_increase_size c id delta)

  -- No error of the API server leaves the gRPC server as it is: whatever the API server, the encoder
  -- and the request, every error of a call that asks the API server is a gRPC status, and each of
  -- these calls has its own codes. The
  -- group of a node, a price and the options never fail; the groups answer Internal, the nodes of a
  -- group InvalidArgument, and a template Internal or Unimplemented; a target size and a deletion
  -- answer DeadlineExceeded or Internal, a decrease InvalidArgument too, and an increase
  -- FailedPrecondition besides.
  pub server-Typed :
      (namespace id name : String) (delta : ℤ) (names : List String)
      → Typed namespace id name delta names
  server-Typed namespace id name delta names = (
    for_node-Answers c namespace name,
    price-Answers c parse_float zero_float namespace name,
    options-Answers c parse_float zero_float namespace id,
    node_groups-Answers c,
    nodes-Answers c id,
    template-Answers c t marshal id,
    target_size-Answers c id,
    delete_nodes-Answers c namespace names,
    decrease_size-Answers c sort_slice id delta,
    increase_size-Answers c id delta,
  )
