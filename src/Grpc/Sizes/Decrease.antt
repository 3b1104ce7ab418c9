-- ===== src/Grpc/Sizes/Decrease.antt =====
-- How many nodes the scale down of internal/grpcserver/server.go shuts down, and which.
use homelab_autoscaler.Prelude.{
  ℕ, zero, suc, ◌+◌, ◌-◌, ◌^◌, ◌≤◌, ◌<◌, String, ◌≡◌, ◌⊎◌, Bool, false, List, [], ◌∷◌, ◌++◌, arith,
  subst, not,
}
use homelab_autoscaler.Prelude.Int.{ℤ, pos, negsuc, ltb_ℤ}
use mathlib.Core.List.{Perm}
use homelab_autoscaler.Prelude.Lists.{
  length, select, take, drop, take-drop, length-take, All, All-drop,
}
use homelab_autoscaler.Action.{
  ok, status, internal, invalid_argument, or_status, when, raise, ◌>>=◌, ◌>>◌, continue-eq-ok,
  coded-eq-ok, Runs, done, step, pure-eq-ok, when-eq-ok,
}
use homelab_autoscaler.Api.{Node}
use homelab_autoscaler.Api.Client.{Client, context_over}
use homelab_autoscaler.Grpc.Sizes.Increase.{check_context-ok}
use homelab_autoscaler.Grpc.Sizes.{
  nodes_to_shutdown, started_before, is_booting, is_powered_on, check_context, shut_down_oldest,
  node_group_decrease_target_size, shut_down, shut_down_first,
}

-- With `on` nodes powered on and `booting` nodes starting, both below 2^31, a decrease by `d + 1`
-- shuts down `booting - (on - (d + 1))` nodes, both differences cut off at 0.
pub nodes_to_shutdown_lem :
    (on booting d : ℕ)
    → on < 2 ^ 31
    → booting < 2 ^ 31
    → nodes_to_shutdown on booting (negsuc d) ≡ booting - (on - suc d)
unfolding nodes_to_shutdown
nodes_to_shutdown_lem on booting d h k = ground arith

-- If no more nodes are powered on than the decrease asks to take away, the amount to shut down is
-- that of all the booting nodes, however few the decrease asks for. Both counts are below 2^31.
pub decrease_overshoots :
    (on booting d : ℕ)
    → on < 2 ^ 31
    → booting < 2 ^ 31
    → on ≤ suc d
    → nodes_to_shutdown on booting (negsuc d) ≡ booting
decrease_overshoots on booting d h k p = omega (arith, nodes_to_shutdown_lem on booting d h k)

-- If at least as many nodes are powered on as are booting and are to be taken away together, the
-- amount to shut down is 0. Both counts are below 2^31.
pub decrease_undershoots :
    (on booting d : ℕ)
    → on < 2 ^ 31
    → booting < 2 ^ 31
    → booting + suc d ≤ on
    → nodes_to_shutdown on booting (negsuc d) ≡ 0
decrease_undershoots on booting d h k p = omega (arith, nodes_to_shutdown_lem on booting d h k)

-- A list that is sorted by a comparison: no later item is before an earlier one.
abbrev pub IsSorted : (Node → Node → Bool) → List Node → Type 0
IsSorted less [] = Unit
IsSorted less (x ∷ xs) = All (λ y. less y x ≡ false) xs × IsSorted less xs

-- What `sort.Slice` documents, for the comparison by startup times.
pub record SortLaws (sort_slice : (Node → Node → Bool) → List Node → List Node) : Type 0 where
  pub sorted : (xs : List Node) → IsSorted started_before (sort_slice started_before xs)
  pub same_items : (xs : List Node) → Perm (sort_slice started_before xs) xs

-- Each of the first k items stands before all the rest.
split_sorted :
    (less : Node → Node → Bool) (k : ℕ) (xs : List Node)
    → IsSorted less xs
    → All (λ x. All (λ y. less y x ≡ false) (drop k xs)) (take k xs)
split_sorted less zero xs h = tt
split_sorted less (suc k) [] h = tt
split_sorted less (suc k) (x ∷ xs) h =
    (All-drop (λ y. less y x ≡ false) k xs h.0, split_sorted less k xs h.1)

-- The first part has k items, or fewer and then it is all.
abbrev pub Exhausts : ℕ → List Node → List Node → Type 0
Exhausts k down rest = (length down ≡ k) ⊎ ((length down < k) × (rest ≡ []))

module _ {W : Type 0} (c : Client W)
    (sort_slice : (Node → Node → Bool) → List Node → List Node) where
  shut_down_first-Runs :
      (k : ℕ) (nodes : List Node) (w v : W)
      → shut_down_first c sort_slice k nodes w ≡ (ok tt, v)
      → Runs (shut_down c sort_slice) (take k nodes) w v
  unfolding shut_down_first
  shut_down_first-Runs zero nodes w v h =
      subst (λ x. Runs (shut_down c sort_slice) [] w x) (pure-eq-ok h) done
  shut_down_first-Runs (suc k) [] w v h =
      subst (λ x. Runs (shut_down c sort_slice) [] w x) (pure-eq-ok h) done
  shut_down_first-Runs (suc k) (n ∷ ns) w v h =
      let (_, u, first, rest) =
        continue-eq-ok (shut_down c sort_slice n w) (λ _. shut_down_first c sort_slice k ns) h in
      step first (shut_down_first-Runs k ns u v rest)

  -- All that a decrease does: the context is not over, and the nodes of the group are listed; of those that are booting, sorted by
  -- their startup times, a first part is shut down; and none of the part that is left started before
  -- any of it.
  abbrev pub Decreased : String → ℤ → W → W → Type 0
  Decreased id delta w v =
      (u1 u2 : W) × (nodes down rest : List Node) × (context_over c w ≡ (ok false, u1))
      × (c.list_group_nodes id u1 ≡ (ok nodes, u2))
      × Perm (down ++ rest) (select is_booting nodes)
      × All (λ x. All (λ y. started_before y x ≡ false) rest) down
      × Exhausts
          (nodes_to_shutdown (length (select is_powered_on nodes))
            (length (select is_booting nodes)) delta)
          down rest
      × Runs (shut_down c sort_slice) down u2 v

  module _ (laws : SortLaws sort_slice) where
    -- With a sort that behaves as documented, a decrease that succeeds has shut down booting nodes
    -- of the group only, none of those that are left having started before any of them, as many of
    -- them as the amount computed, or all where there are fewer, and each of them successfully.
    pub decrease-Decreased :
        (id : String) (delta : ℤ) (w v : W)
        → node_group_decrease_target_size c sort_slice id delta w ≡ (ok tt, v)
        → Decreased id delta w v
    unfolding node_group_decrease_target_size
    decrease-Decreased id delta w v h =
        let (_, u, context, h1) =
          continue-eq-ok (check_context c w)
            (λ _.
              when (not (ltb_ℤ delta (pos 0))) (raise (status invalid_argument))
              >> (or_status internal (c.list_group_nodes id) >>= λ nodes.
                  shut_down_oldest c sort_slice nodes delta))
            h in
        let (_, u1, guard, h2) =
          continue-eq-ok (when (not (ltb_ℤ delta (pos 0))) (raise (status invalid_argument)) u)
            (λ _. or_status internal (c.list_group_nodes id) >>= λ nodes.
              shut_down_oldest c sort_slice nodes delta)
            h1 in
        let (nodes, u2, listed, h3) =
          continue-eq-ok (or_status internal (c.list_group_nodes id) u1)
            (λ nodes. shut_down_oldest c sort_slice nodes delta) h2 in
        let same = (when-eq-ok (not (ltb_ℤ delta (pos 0))) (status invalid_argument) guard).1 in
        let k =
          nodes_to_shutdown (length (select is_powered_on nodes)) (length (select is_booting nodes))
            delta in
        let sorted = sort_slice started_before (select is_booting nodes) in
        (
          u1,
          u2,
          nodes,
          take k sorted,
          drop k sorted,
          check_context-ok c w u1 (rw (← same) context),
          coded-eq-ok internal _ listed,
          rw (take-drop k sorted) (laws.same_items (select is_booting nodes)),
          split_sorted started_before k sorted (laws.sorted (select is_booting nodes)),
          length-take k sorted,
          unfold shut_down_oldest in shut_down_first-Runs k sorted u2 v h3,
        )
