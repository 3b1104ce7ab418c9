-- ===== src/Grpc/Template/Statuses.antt =====
-- The errors that `NodeGroupTemplateNodeInfo` of internal/grpcserver/server.go answers with.
use homelab_autoscaler.Prelude.{Option, none, some, String, [], ◌∷◌}
use homelab_autoscaler.Action.{Result, ok, err, internal, unimplemented}
use homelab_autoscaler.Action.Codes.{Answers, answers}
use homelab_autoscaler.Api.{Node, KubeNode}
use homelab_autoscaler.Api.Text.{Texts}
use homelab_autoscaler.Api.Client.{Client, time_now}
use homelab_autoscaler.Grpc.Template.{
  kube_node_or_placeholder, encoded, info_of, node_group_template_node_info,
}

module _ {W Bytes : Type 0} (c : Client W) (t : Texts) (marshal : KubeNode → Result Bytes) where
  found-Answers :
      (n : Node) (r : Result KubeNode)
      → Answers (internal ∷ unimplemented ∷ []) (kube_node_or_placeholder c t marshal n r)
  unfolding kube_node_or_placeholder
  found-Answers n (ok k) = search answers
  found-Answers n (err e) = search answers

  encoded-Answers :
      (r : Result Bytes) → Answers (internal ∷ unimplemented ∷ []) (encoded c t marshal r)
  encoded-Answers (ok b) = search answers
  encoded-Answers (err e) = search answers

  info_of-Answers :
      (id : String) (n : Option Node)
      → Answers (internal ∷ unimplemented ∷ []) (info_of c t marshal id n)
  unfolding info_of time_now
  info_of-Answers id none = search answers
  info_of-Answers id (some n) = search (answers, found-Answers, encoded-Answers)

  pub template-Answers :
      (id : String)
      → Answers (internal ∷ unimplemented ∷ []) (node_group_template_node_info c t marshal id)
  unfolding node_group_template_node_info
  template-Answers id = search (answers, info_of-Answers)
