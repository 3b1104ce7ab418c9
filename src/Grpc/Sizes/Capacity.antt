-- ===== src/Grpc/Sizes/Capacity.antt =====
-- How often a group can be increased by the calls of internal/grpcserver/server.go.
use homelab_autoscaler.Prelude.{
  ℕ, zero, suc, ◌+◌, ◌<◌, String, ◌≡◌, ◌⊎◌, inl, inr, refl, true, false, none, some, Option-cases,
  List, [], ◌∷◌, ◌++◌, arith, ap,
}
use homelab_autoscaler.Prelude.Int.{ℤ, pos, ltb_ℤ}
use homelab_autoscaler.Prelude.Lists.{length, select, find_first, FirstIn, find_first-FirstIn, All}
use homelab_autoscaler.Action.{
  ok, err, status, internal, failed_precondition, or_status, pure, ◌>>◌,
}
use homelab_autoscaler.Api.{Node, NodeSpec, on, is_off}
use homelab_autoscaler.Api.Client.{Client, context_over}
use homelab_autoscaler.Api.Server.{WriteLaws}
use homelab_autoscaler.Grpc.Sizes.{
  can_start, set_desired, check_context, start_found, node_group_increase_size,
}

-- The number of nodes that an increase may wake.
abbrev pub startable : List Node → ℕ
startable ns = length (select can_start ns)

startable-replaced :
    (before after : List Node) (n m : Node)
    → can_start n ≡ true
    → can_start m ≡ false
    → suc (startable (before ++ m ∷ after)) ≡ startable (before ++ n ∷ after)
unfolding select
startable-replaced [] after n m h k = rw (h, k, select) refl
startable-replaced (x ∷ before) after n m h k =
    ground (arith, startable-replaced before after n m h k)

startable-none : (ns : List Node) → find_first can_start ns ≡ none → startable ns ≡ 0
unfolding find_first select
startable-none [] h = refl
startable-none (n ∷ ns) h = ground (arith, startable-none ns)

startable-some : (ns : List Node) (n : Node) → find_first can_start ns ≡ some n → 0 < startable ns
unfolding find_first select
startable-some [] n h = absurd (cc)
startable-some (x ∷ ns) n h = ground (arith, startable-some ns n)

woken_down : (n m : Node) → m.spec ≡ (set_desired n on).spec → can_start m ≡ false
unfolding can_start
woken_down n m h = rw (ap (λ (s : NodeSpec). is_off s.desired_power_state) h) refl

-- `Wakings c id k ns w ms v`: between `w`, where the group is listed as `ns`, and `v`, where it is to be
-- listed as `ms`, increases have woken `k` nodes, each the first of the listing that could start, and
-- what was stored for it stands in its place.
pub data Wakings {W : Type 0} (c : Client W) (id : String)
    : ℕ → List Node → W → List Node → W → Type 0 where
  none_yet : {ns : List Node} {w : W} → Wakings c id zero ns w ns w
  one_more :
      {k : ℕ} {ns : List Node} {w v u1 u2 x : W} (before after : List Node) (n m : Node)
      → Wakings c id k ns w (before ++ n ∷ after) v
      → context_over c v ≡ (ok false, u1)
      → c.list_group_nodes id u1 ≡ (ok (before ++ n ∷ after), u2)
      → can_start n ≡ true
      → All (λ y. can_start y ≡ false) before
      → c.update_node (set_desired n on) u2 ≡ (ok m, x)
      → Wakings c id (suc k) ns w (before ++ m ∷ after) x

module _ {W : Type 0} (c : Client W) (writes : WriteLaws c) where
  Wakings-startable :
      {id : String} {k : ℕ} {ns ms : List Node} {w v : W}
      → Wakings c id k ns w ms v
      → startable ms + k ≡ startable ns
  Wakings-startable none_yet = omega arith
  Wakings-startable (one_more before after n m earlier _ _ fit _ put) =
      let (spec, _) = writes.update_node_keeps (set_desired n on) m _ _ put in
      omega (
        arith,
        Wakings-startable earlier,
        startable-replaced before after n m fit (woken_down n m spec),
      )

  -- The next increase: it is refused, or it writes the next node that can start.
  abbrev pub Next : String → ℤ → List Node → W → W → Type 0
  Next id delta ms v u =
      ((startable ms ≡ 0)
        × (node_group_increase_size c id delta v ≡ (err (status failed_precondition), u)))
      ⊎ ((0 < startable ms)
          × (n : Node) × FirstIn can_start ms n
          × (node_group_increase_size c id delta v
              ≡ (or_status internal (c.update_node (set_desired n on)) >> pure tt) u))

  increase-Next :
      (id : String) (delta : ℤ) (ms : List Node) (v u1 u2 : W)
      → ltb_ℤ (pos 0) delta ≡ true
      → context_over c v ≡ (ok false, u1)
      → c.list_group_nodes id u1 ≡ (ok ms, u2)
      → Next id delta ms v u2
  unfolding node_group_increase_size check_context start_found
  increase-Next id delta ms v u1 u2 positive goes_on listed =
      elim (Option-cases (find_first can_start ms)) [
        | inl h ↦ inl (startable-none ms h, rw (goes_on, positive, listed, h) refl)
        | inr (n, h) ↦ inr (
          startable-some ms n h,
          n,
          find_first-FirstIn can_start ms n h,
          rw (goes_on, positive, listed, h) refl,
        )
      ]

  -- A group can be increased once for each node that can start, by whatever amounts: after k
  -- increases that woke nodes of it, on a server that keeps what it stores and lists it so, there are
  -- k fewer nodes that can start, and the next increase, if the context is not over, answers
  -- FailedPrecondition exactly if there were k of them at first; otherwise there were more, and it
  -- writes the first node left that can start.
  pub increase_capacity :
      (id : String) (k : ℕ) (delta : ℤ) (ns ms : List Node) (w v u1 u2 : W)
      → Wakings c id k ns w ms v
      → ltb_ℤ (pos 0) delta ≡ true
      → context_over c v ≡ (ok false, u1)
      → c.list_group_nodes id u1 ≡ (ok ms, u2)
      → ((startable ns ≡ k)
          × (node_group_increase_size c id delta v ≡ (err (status failed_precondition), u2)))
        ⊎ ((k < startable ns)
            × (n : Node) × FirstIn can_start ms n
            × (node_group_increase_size c id delta v
                ≡ (or_status internal (c.update_node (set_desired n on)) >> pure tt) u2))
  increase_capacity id k delta ns ms w v u1 u2 wakings positive goes_on listed =
      let counted = Wakings-startable wakings in
      elim (increase-Next id delta ms v u1 u2 positive goes_on listed) [
        | inl (nothing, refused) ↦ inl (omega (arith, counted, nothing), refused)
        | inr (left, n, first, writes_it) ↦ inr (omega (arith, counted, left), n, first, writes_it)
      ]
