-- ===== src/Grpc/Sizes/Lags.antt =====
-- The target size that internal/grpcserver/server.go answers, beside the sizes of the group and after an
-- increase.
use homelab_autoscaler.Prelude.{
  ℕ, ◌+◌, ◌^◌, ◌<◌, String, ◌≡◌, refl, false, List, ◌∷◌, [], ◌++◌, arith, true,
}
use homelab_autoscaler.Prelude.Int.{ℤ, pos}
use homelab_autoscaler.Prelude.Lists.{length, select}
use homelab_autoscaler.Action.{ok}
use homelab_autoscaler.Api.{Node, Group, on}
use homelab_autoscaler.Api.Client.{Client, context_over}
use homelab_autoscaler.Api.Server.{WriteLaws}
use homelab_autoscaler.Grpc.Groups.{groups_of}
use homelab_autoscaler.Grpc.Sizes.{
  to_int32, counts, count_target, can_start, set_desired, check_context, node_group_target_size,
  node_group_increase_size,
}
use homelab_autoscaler.Grpc.Sizes.Target.{is_down, target_complement}
use homelab_autoscaler.Grpc.Sizes.Increase.{increase-Woken}

to_int32_exact : (n : ℕ) → n < 2 ^ 31 → to_int32 n ≡ pos n
unfolding to_int32
to_int32_exact n h = ground arith

can_start-counts : (n : Node) → can_start n ≡ true → counts n ≡ false
unfolding can_start counts
can_start-counts n h = ground arith

-- The count looks at the progress alone.
counts-status : (n m : Node) → m.status ≡ n.status → counts m ≡ counts n
unfolding counts
counts-status n m h = rw h refl

count_target-replaced :
    (before after : List Node) (n m : Node)
    → counts m ≡ counts n
    → count_target (before ++ m ∷ after) ≡ count_target (before ++ n ∷ after)
unfolding count_target
count_target-replaced [] after n m h = rw h refl
count_target-replaced (x ∷ before) after n m h = rw (count_target-replaced before after n m h) refl

module _ {W : Type 0} (c : Client W) where
  -- The target size that is answered for a group with fewer than 2^31 nodes, if the context is not over
  -- and the nodes can be listed: a number from 0 to the maximum size that NodeGroups answers for the
  -- group with the same nodes, namely that size less the nodes that are shut down or shutting down.
  pub target_within_group :
      (g : Group) (nodes : List Node) (w u v x y : W)
      → context_over c w ≡ (ok false, u)
      → c.list_group_nodes g.name u ≡ (ok nodes, v)
      → c.list_group_nodes g.name x ≡ (ok nodes, y)
      → length nodes < 2 ^ 31
      → (target max : ℕ) × (node_group_target_size c g.name w ≡ (ok (pos target), v))
        × (groups_of c (g ∷ []) x
            ≡ (ok (record { id = g.name; min_size = pos 0; max_size = pos max } ∷ []), y))
        × (target + length (select is_down nodes) ≡ max)
  unfolding node_group_target_size check_context groups_of
  target_within_group g nodes w u v x y goes_on listed again few =
      let sum = target_complement nodes in
      (
        count_target nodes,
        length nodes,
        rw (goes_on, listed, to_int32_exact (count_target nodes) (omega (arith, sum))) refl,
        rw (again, to_int32_exact (length nodes) few) refl,
        sum,
      )

  -- An increase that succeeds does not show in the target size, on a server that keeps the status of
  -- what it stores: in the group as it was listed, with the woken node replaced by what was stored for
  -- it, the count is what it was, and the woken node is not counted.
  pub increase_unseen :
      (writes : WriteLaws c) (id : String) (delta : ℤ) (w v : W)
      → node_group_increase_size c id delta w ≡ (ok tt, v)
      → (u1 u2 : W) × (before after : List Node) × (n m : Node) × (c.list_group_nodes id u1
          ≡ (ok (before ++ n ∷ after), u2))
        × (c.update_node (set_desired n on) u2 ≡ (ok m, v))
        × (count_target (before ++ m ∷ after) ≡ count_target (before ++ n ∷ after))
        × (counts m ≡ false)
  increase_unseen writes id delta w v h =
      let (u1, u2, nodes, n, m, _, listed, (before, after, split, startable, _), put) =
        increase-Woken c id delta w v h in
      let same = counts-status n m (writes.update_node_keeps (set_desired n on) m u2 v put).1 in
      (
        u1,
        u2,
        before,
        after,
        n,
        m,
        rw (← split) listed,
        put,
        count_target-replaced before after n m same,
        rw same (can_start-counts n startable),
      )
