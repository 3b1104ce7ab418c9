-- ===== src/Grpc/Sizes/Delete.antt =====
-- What `NodeGroupDeleteNodes` of internal/grpcserver/server.go does.
use homelab_autoscaler.Prelude.{String, ◌≡◌, List, [], ◌∷◌, ◌++◌, subst}
use homelab_autoscaler.Action.{ok, err, continue-eq-ok, Runs, done, step, pure-eq-ok, Error}
use homelab_autoscaler.Api.Client.{Client}
use homelab_autoscaler.Grpc.Sizes.{check_context, delete_one, delete_each, node_group_delete_nodes}

module _ {W : Type 0} (c : Client W) (namespace : String) where
  delete_each-Runs :
      (names : List String) (w v : W)
      → delete_each c namespace names w ≡ (ok tt, v)
      → Runs (delete_one c namespace) names w v
  unfolding delete_each
  delete_each-Runs [] w v h = subst (λ x. Runs (delete_one c namespace) [] w x) (pure-eq-ok h) done
  delete_each-Runs (name ∷ names) w v h =
      let (_, u, first, rest) =
        continue-eq-ok (delete_one c namespace name w) (λ _. delete_each c namespace names) h in
      step first (delete_each-Runs names u v rest)

  delete_each-stops :
      (before after : List String) (name : String) (w u v : W) (e : Error)
      → Runs (delete_one c namespace) before w u
      → delete_one c namespace name u ≡ (err e, v)
      → delete_each c namespace (before ++ name ∷ after) w ≡ (err e, v)
  unfolding delete_each
  delete_each-stops [] after name w u v e done h = rw h
  delete_each-stops (x ∷ before) after name w u v e (step first rest) h =
      rw first (delete_each-stops before after name _ u v e rest h)

  -- A deletion that succeeds has processed every node of the request, in its order and each of them
  -- successfully, after a look at the context.
  pub delete_nodes-Runs :
      (names : List String) (w v : W)
      → node_group_delete_nodes c namespace names w ≡ (ok tt, v)
      → (u : W) × (check_context c w ≡ (ok tt, u)) × Runs (delete_one c namespace) names u v
  unfolding node_group_delete_nodes
  delete_nodes-Runs names w v h =
      let (_, u, context, rest) =
        continue-eq-ok (check_context c w) (λ _. delete_each c namespace names) h in
      (u, context, delete_each-Runs names u v rest)

  -- The first node whose processing fails ends the request with its error: the nodes before it stay
  -- as they were left, and those after it are not touched.
  pub delete_nodes_stops :
      (before after : List String) (name : String) (w u1 u v : W) (e : Error)
      → check_context c w ≡ (ok tt, u1)
      → Runs (delete_one c namespace) before u1 u
      → delete_one c namespace name u ≡ (err e, v)
      → node_group_delete_nodes c namespace (before ++ name ∷ after) w ≡ (err e, v)
  unfolding node_group_delete_nodes
  delete_nodes_stops before after name w u1 u v e context runs h =
      rw context (delete_each-stops before after name u1 u v e runs h)
