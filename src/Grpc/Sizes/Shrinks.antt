-- ===== src/Grpc/Sizes/Shrinks.antt =====
-- By how much a decrease of internal/grpcserver/server.go makes the target size smaller.
use mathlib.Core.Bool.{Bool-set}
use mathlib.Core.List.Perm as PermLaws
use mathlib.Core.List.{Perm, append_assoc}
use homelab_autoscaler.Prelude.{
  ℕ, suc, ◌+◌, ◌-◌, ◌^◌, ◌<◌, ◌≤◌, String, ◌≡◌, refl, sym, ap, ◌∙◌, subst, inl, inr, true, false,
  not, List, [], Bool, ◌∷◌, ◌++◌, arith,
}
use homelab_autoscaler.Prelude.Int.{negsuc}
use homelab_autoscaler.Prelude.Lists.{length, select, All, All-left, All-select}
use homelab_autoscaler.Prelude.Perms.{length-Perm, split-Perm, All-Perm}
use homelab_autoscaler.Action.{
  ok, internal, or_status, pure, ◌>>◌, Runs, done, step, continue-eq-ok, coded-eq-ok, pure-eq-ok,
}
use homelab_autoscaler.Api.{Node, off, shutting_down}
use homelab_autoscaler.Api.Client.{Client, context_over}
use homelab_autoscaler.Api.Server.{WriteLaws}
use homelab_autoscaler.Grpc.Sizes.{
  counts, count_target, set_desired, set_progress, is_booting, is_powered_on, nodes_to_shutdown,
  shut_down, node_group_decrease_target_size,
}
use homelab_autoscaler.Grpc.Sizes.Decrease.{
  SortLaws, Exhausts, decrease-Decreased, nodes_to_shutdown_lem,
}
use homelab_autoscaler.Grpc.Sizes.Orders.{count_target-Perm}

count_target-append :
    (ns ms : List Node) → count_target (ns ++ ms) ≡ count_target ns + count_target ms
unfolding count_target
count_target-append [] ms = omega arith
count_target-append (n ∷ ns) ms = ground (arith, count_target-append ns ms)

is_booting-counts : (n : Node) → is_booting n ≡ true → counts n ≡ true
unfolding is_booting counts
is_booting-counts n h = ground arith

count_target-booting :
    (ns : List Node) → All (λ n. is_booting n ≡ true) ns → count_target ns ≡ length ns
unfolding count_target
count_target-booting [] h = refl
count_target-booting (n ∷ ns) (h, hs) =
    rw (is_booting-counts n h) (ap suc (count_target-booting ns hs))

module _ {W : Type 0} (c : Client W) where
  -- The two writes of one node, from `w` to `v`, and what is stored for it by the second.
  abbrev pub Stored : Node → Node → W → W → Type 0
  Stored n m w v =
      (u : W) × (updated : Node) × (c.update_node (set_desired n off) w ≡ (ok updated, u))
      × (c.update_node_status (set_progress updated shutting_down) u ≡ (ok m, v))

  -- The nodes of a list, one after the other and nothing else, from `w` to `v`.
  abbrev pub AllStored : List Node → List Node → W → W → Type 0
  AllStored [] [] w v = w ≡ v
  AllStored (n ∷ ns) (m ∷ ms) w v = (u : W) × Stored n m w u × AllStored ns ms u v
  AllStored _ _ w v = ⊥

  count_target-Stored :
      (writes : WriteLaws c) (ns ms : List Node) (w v : W)
      → AllStored ns ms w v
      → count_target ms ≡ 0
  unfolding count_target counts
  count_target-Stored writes [] [] w v h = refl
  count_target-Stored writes [] (m ∷ ms) w v h = absurd h
  count_target-Stored writes (n ∷ ns) [] w v h = absurd h
  count_target-Stored writes (n ∷ ns) (m ∷ ms) w v (u, (x, updated, _, put), h) =
      let status = writes.update_status_keeps (set_progress updated shutting_down) m x u put in
      rw status (count_target-Stored writes ns ms u v h)

module _ {W : Type 0} (c : Client W)
    (sort_slice : (Node → Node → Bool) → List Node → List Node) where
  shut_down-Stored :
      (n : Node) (w v : W) → shut_down c sort_slice n w ≡ (ok tt, v) → (m : Node) × Stored c n m w v
  unfolding shut_down
  shut_down-Stored n w v h =
      let (updated, u1, put, h1) =
        continue-eq-ok (or_status internal (c.update_node (set_desired n off)) w)
          (λ (m : Node).
            or_status internal (c.update_node_status (set_progress m shutting_down)) >> pure tt)
          h in
      let (m, u2, written, h2) =
        continue-eq-ok
          (or_status internal (c.update_node_status (set_progress updated shutting_down)) u1)
          (λ _. pure tt) h1 in
      (
        m,
        (
          u1,
          updated,
          coded-eq-ok internal _ put,
          coded-eq-ok internal _ written ∙ ap (λ (x : W). (ok m, x)) (pure-eq-ok h2),
        ),
      )

  pub Runs-Stored :
      (ns : List Node) {w v : W}
      → Runs (shut_down c sort_slice) ns w v
      → (ms : List Node) × AllStored c ns ms w v
  Runs-Stored [] done = ([], refl)
  Runs-Stored (n ∷ ns) (step {v = u} ran rest) =
      let (m, stored) = shut_down-Stored n _ _ ran in
      let (ms, others) = Runs-Stored ns rest in (m ∷ ms, (u, stored, others))

length-append : (ns ms : List Node) → length (ns ++ ms) ≡ length ns + length ms
length-append [] ms = omega arith
length-append (n ∷ ns) ms = omega (arith, length-append ns ms)

length-select : (p : Node → Bool) (ns : List Node) → length (select p ns) ≤ length ns
unfolding select
length-select p [] = omega arith
length-select p (n ∷ ns) = ground (arith, length-select p ns)

-- No decrease asks for more nodes than are booting.
down_exactly :
    (on booting d : ℕ) (down rest : List Node)
    → on < 2 ^ 31
    → booting < 2 ^ 31
    → length (down ++ rest) ≡ booting
    → Exhausts (nodes_to_shutdown on booting (negsuc d)) down rest
    → length down ≡ booting - (on - suc d)
down_exactly on booting d down rest h k total exhausts =
    let amount = nodes_to_shutdown_lem on booting d h k in
    let parts = length-append down rest in
    elim exhausts [
      | inl e ↦ e ∙ amount
      | inr (e, none_left) ↦
          let no_more : length rest ≡ 0 = ap length none_left in
          omega (arith, amount, parts, total, e, no_more)
    ]

-- A part of the booting nodes and all the others of the group.
group_parts :
    (down rest nodes : List Node)
    → Perm (down ++ rest) (select is_booting nodes)
    → Perm (down ++ (rest ++ select (λ n. not (is_booting n)) nodes)) nodes
group_parts down rest nodes same =
    subst (λ ns. Perm ns nodes) (append_assoc down rest (select (λ n. not (is_booting n)) nodes))
      (PermLaws.trans (PermLaws.append_right (select (λ n. not (is_booting n)) nodes) same)
        (split-Perm is_booting nodes))

count_target-parts :
    (down rest nodes : List Node)
    → Perm (down ++ rest) (select is_booting nodes)
    → count_target nodes
      ≡ length down + count_target (rest ++ select (λ n. not (is_booting n)) nodes)
count_target-parts down rest nodes same =
    let passes =
      All-left _ down rest
        (All-Perm (λ n. Bool-set _ _) (PermLaws.symm same) (All-select is_booting nodes)) in
    sym (count_target-Perm (group_parts down rest nodes same))
    ∙ count_target-append down (rest ++ select (λ n. not (is_booting n)) nodes)
    ∙ ap (λ k. k + count_target (rest ++ select (λ n. not (is_booting n)) nodes))
        (count_target-booting down passes)

module _ {W : Type 0} (c : Client W) where
  -- The group was listed between `w` and `v`, and is the nodes shut down and those left; from the
  -- listing to the end the former were stored one after the other; and with what was stored for them
  -- in their place, the target size is smaller by the booting nodes less what the running ones exceed
  -- d + 1 by.
  abbrev pub Shrunk : String → ℕ → W → W → Type 0
  Shrunk id d w v =
      (u1 u2 : W) × (nodes down left marked : List Node) × (context_over c w ≡ (ok false, u1))
      × (c.list_group_nodes id u1 ≡ (ok nodes, u2))
      × Perm (down ++ left) nodes
      × AllStored c down marked u2 v
      × (count_target (marked ++ left)
            + (length (select is_booting nodes) - (length (select is_powered_on nodes) - suc d))
          ≡ count_target nodes)

module _ {W : Type 0} (c : Client W) (sort_slice : (Node → Node → Bool) → List Node → List Node)
    (laws : SortLaws sort_slice) (writes : WriteLaws c) where
  -- After a decrease by d + 1 that succeeds, with a sort and a server that behave as documented, if
  -- the listings of the group have fewer than 2^31 nodes: the group as it was listed is made of the
  -- nodes that were shut down, one after the other, and those that are left; and with what was stored
  -- for the former in their place, the target size is smaller by the number of booting nodes less what the nodes that
  -- are powered on exceed d + 1 by, both differences cut off at 0. That is not d + 1 in general.
  pub decrease_shrinks :
      (id : String) (d : ℕ) (w v : W)
      → ((u x : W) (ns : List Node) → c.list_group_nodes id u ≡ (ok ns, x) → length ns < 2 ^ 31)
      → node_group_decrease_target_size c sort_slice id (negsuc d) w ≡ (ok tt, v)
      → Shrunk c id d w v
  decrease_shrinks id d w v few h =
      let (u1, u2, nodes, down, rest, context, listed, same, _, exhausts, ran) =
        decrease-Decreased c sort_slice laws id (negsuc d) w v h in
      let (marked, stored) = Runs-Stored c sort_slice down ran in
      let left = rest ++ select (λ n. not (is_booting n)) nodes in
      let bound = few u1 u2 nodes listed in
      let amount =
        down_exactly (length (select is_powered_on nodes)) (length (select is_booting nodes)) d down
          rest (omega (arith, length-select is_powered_on nodes, bound))
          (omega (arith, length-select is_booting nodes, bound)) (length-Perm same) exhausts in
      let gone = count_target-Stored c writes down marked u2 v stored in
      let parts = count_target-parts down rest nodes same in
      let split = count_target-append marked left in
      (
        u1,
        u2,
        nodes,
        down,
        left,
        marked,
        context,
        listed,
        group_parts down rest nodes same,
        stored,
        omega (arith, amount, gone, parts, split),
      )
