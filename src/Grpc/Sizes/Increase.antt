-- ===== src/Grpc/Sizes/Increase.antt =====
-- What `NodeGroupIncreaseSize` and `NodeGroupDeleteNodes` of internal/grpcserver/server.go do.
use homelab_autoscaler.Prelude.{
  String, ◌≡◌, refl, not, true, false, Option, none, some, List, ◌∙◌, ap,
}
use homelab_autoscaler.Prelude.Int.{ℤ, pos, ltb_ℤ}
use homelab_autoscaler.Prelude.Lists.{find_first, FirstIn, find_first-FirstIn}
use homelab_autoscaler.Action.{
  ok, status, internal, or_status, ◌>>◌, pure, continue-eq-ok, invalid_argument, deadline_exceeded,
  when, raise, ◌>>=◌, coded-eq-ok, pure-eq-ok, when-eq-ok,
}
use homelab_autoscaler.Api.{Node, on}
use homelab_autoscaler.Api.Client.{Client, context_over}
use homelab_autoscaler.Grpc.Sizes.{
  can_start, set_desired, check_context, start_found, node_group_increase_size,
}

module _ {W : Type 0} (c : Client W) where
  -- An increase by any positive amount does what an increase by one does.
  pub increase_ignores_delta :
      (id : String) (delta : ℤ) (w : W)
      → ltb_ℤ (pos 0) delta ≡ true
      → node_group_increase_size c id delta w ≡ node_group_increase_size c id (pos 1) w
  unfolding node_group_increase_size
  increase_ignores_delta id delta w h = rw h

  -- All that an increase does: the context is not over, the nodes of the group are listed, and the
  -- first of them that can start is written back with the desired state `on`.
  abbrev pub Woken : String → W → W → Type 0
  Woken id w v =
      (u1 u2 : W) × (nodes : List Node) × (n m : Node) × (context_over c w ≡ (ok false, u1))
      × (c.list_group_nodes id u1 ≡ (ok nodes, u2))
      × FirstIn can_start nodes n
      × (c.update_node (set_desired n on) u2 ≡ (ok m, v))

  pub check_context-ok :
      (w v : W) → check_context c w ≡ (ok tt, v) → context_over c w ≡ (ok false, v)
  unfolding check_context
  check_context-ok w v h =
      let (over, u, asked, rest) =
        continue-eq-ok (context_over c w) (λ b. when b (raise (status deadline_exceeded))) h in
      let (goes_on, same) = when-eq-ok over (status deadline_exceeded) rest in
      rw (← same, ← goes_on) asked

  start_found-ok :
      (o : Option Node) (w v : W)
      → start_found c o w ≡ (ok tt, v)
      → (n m : Node) × (o ≡ some n) × (c.update_node (set_desired n on) w ≡ (ok m, v))
  unfolding start_found
  start_found-ok none w v h = absurd (cc)
  start_found-ok (some n) w v h =
      let (m, u, put, rest) =
        continue-eq-ok (or_status internal (c.update_node (set_desired n on)) w) (λ _. pure tt) h in
      (n, m, refl, coded-eq-ok internal _ put ∙ ap (λ (x : W). (ok m, x)) (pure-eq-ok rest))

  -- An increase that succeeds, by whatever amount, has woken the first node of the group that was
  -- meant to be off, was off and was shut down, and has written to no other node.
  pub increase-Woken :
      (id : String) (delta : ℤ) (w v : W)
      → node_group_increase_size c id delta w ≡ (ok tt, v)
      → Woken id w v
  unfolding node_group_increase_size
  increase-Woken id delta w v h =
      let (_, u1, context, h1) =
        continue-eq-ok (check_context c w)
          (λ _.
            when (not (ltb_ℤ (pos 0) delta)) (raise (status invalid_argument))
            >> (or_status internal (c.list_group_nodes id) >>= λ nodes.
                start_found c (find_first can_start nodes)))
          h in
      let (_, u1', guard, h2) =
        continue-eq-ok (when (not (ltb_ℤ (pos 0) delta)) (raise (status invalid_argument)) u1)
          (λ _. or_status internal (c.list_group_nodes id) >>= λ nodes.
            start_found c (find_first can_start nodes))
          h1 in
      let same = (when-eq-ok (not (ltb_ℤ (pos 0) delta)) (status invalid_argument) guard).1 in
      let (nodes, u2, listed, h3) =
        continue-eq-ok (or_status internal (c.list_group_nodes id) u1')
          (λ nodes. start_found c (find_first can_start nodes)) h2 in
      let (n, m, found, put) = start_found-ok (find_first can_start nodes) u2 v h3 in
      (
        u1,
        u2,
        nodes,
        n,
        m,
        check_context-ok w u1 context,
        rw same (coded-eq-ok internal _ listed),
        find_first-FirstIn can_start nodes n found,
        put,
      )
