-- ===== src/Grpc/Sizes/Orders.antt =====
-- That the size operations of internal/grpcserver/server.go do not depend on the order in which the
-- API server lists the nodes of a group.
use mathlib.Core.Bool.{Bool-set}
use mathlib.Core.Logic.Or
use mathlib.Core.List.Perm as PermLaws
use mathlib.Core.List.{Perm, mem-cons, mem-cons_self, Pairwise}
use mathlib.Core.List.Pairwise as Pairs
use native.Mathlib.Nat.{ℕ_set}
use text.Mathlib.TextEquality.{IsScalar-prop}
use homelab_autoscaler.Prelude.{
  ◌≡◌, refl, sym, ap₂, subst, ◌∙◌, Bool, true, false, ◌||◌, List, [], ◌∷◌, arith,
}
use homelab_autoscaler.Prelude.Int.{ℤ}
use homelab_autoscaler.Prelude.Lists.{length, select}
use homelab_autoscaler.Prelude.Perms.{length-Perm, select-Perm, All-at}
use homelab_autoscaler.Api.{Node}
use homelab_autoscaler.Api.Client.{Client}
use homelab_autoscaler.Grpc.Sizes.{
  counts, count_target, started_before, is_booting, is_powered_on, shut_down_oldest,
}
use homelab_autoscaler.Grpc.Sizes.Decrease.{IsSorted, SortLaws}

Node-set : IsSet Node
Node-set = hlevel (ℕ_set, IsScalar-prop)

-- One of the two started before the other.
abbrev pub AtOtherTimes : Node → Node → Type 0
AtOtherTimes x y = (started_before x y || started_before y x) ≡ true

same_head :
    (x y : Node) (xs ys : List Node)
    → IsSorted started_before (x ∷ xs)
    → IsSorted started_before (y ∷ ys)
    → Pairwise AtOtherTimes (x ∷ xs)
    → Perm (x ∷ xs) (y ∷ ys)
    → x ≡ y
same_head x y xs ys (after_x, _) (after_y, _) (Pairs.cons apart _) same =
    Or.elim (Node-set x y) (mem-cons.0 (PermLaws.subset (PermLaws.symm same) y mem-cons_self))
      (λ e. sym e)
      (λ in_xs.
        Or.elim (Node-set x y) (mem-cons.0 (PermLaws.subset same x mem-cons_self)) (λ e. e)
          (λ in_ys.
            let later : started_before y x ≡ false = All-at (λ z. Bool-set _ _) after_x in_xs in
            let earlier : started_before x y ≡ false = All-at (λ z. Bool-set _ _) after_y in_ys in
            absurd (cc (rw (later, earlier) at (apart y in_xs)))))

-- A list has one order by startup times, if no two of its nodes started at the same time.
sorted_unique :
    (xs ys : List Node)
    → IsSorted started_before xs
    → IsSorted started_before ys
    → Pairwise AtOtherTimes xs
    → Perm xs ys
    → xs ≡ ys
sorted_unique [] ys sorted_x sorted_y apart same = sym (PermLaws.eq-nil (PermLaws.symm same))
sorted_unique (x ∷ xs) [] sorted_x sorted_y apart same = PermLaws.eq-nil same
sorted_unique (x ∷ xs) (y ∷ ys) sorted_x sorted_y (Pairs.cons before apart) same =
    let head = same_head x y xs ys sorted_x sorted_y (Pairs.cons before apart) same in
    ap₂ ◌∷◌ head (
      sorted_unique xs ys sorted_x.1 sorted_y.1 apart
        (PermLaws.cons_inv (subst (λ z. Perm (x ∷ xs) (z ∷ ys)) (sym head) same)))

or_comm : (a b : Bool) → (a || b) ≡ true → (b || a) ≡ true
or_comm true true h = refl
or_comm true false h = refl
or_comm false true h = refl
or_comm false false h = h

AtOtherTimes-sym : (x y : Node) → AtOtherTimes x y → AtOtherTimes y x
AtOtherTimes-sym x y h = or_comm (started_before x y) (started_before y x) h

count_target-select : (ns : List Node) → count_target ns ≡ length (select counts ns)
unfolding count_target select
count_target-select [] = refl
count_target-select (n ∷ ns) = ground (arith, count_target-select ns)

pub count_target-Perm : {ns ms : List Node} → Perm ns ms → count_target ns ≡ count_target ms
count_target-Perm {ns} {ms} same =
    count_target-select ns ∙ length-Perm (select-Perm counts same) ∙ sym (count_target-select ms)

module _ {W : Type 0} (c : Client W) (sort_slice : (Node → Node → Bool) → List Node → List Node)
    (laws : SortLaws sort_slice) where
  same_sort :
      (ns ms : List Node)
      → Perm ns ms
      → Pairwise AtOtherTimes ns
      → sort_slice started_before ns ≡ sort_slice started_before ms
  same_sort ns ms same apart =
      sorted_unique (sort_slice started_before ns) (sort_slice started_before ms) (laws.sorted ns)
        (laws.sorted ms)
        (PermLaws.pairwise (λ x y. Bool-set _ _) AtOtherTimes-sym
          (PermLaws.symm (laws.same_items ns)) apart)
        (PermLaws.trans (laws.same_items ns)
          (PermLaws.trans same (PermLaws.symm (laws.same_items ms))))

  -- The order in which the API server lists the nodes of a group makes no difference: their target
  -- size is the same, and, with a sort that behaves as documented (it need not be stable), a decrease
  -- makes the same calls in the same order, if no two of the booting nodes started at the same time.
  pub sizes_any_order :
      (ns ms : List Node) (delta : ℤ)
      → Perm ns ms
      → Pairwise AtOtherTimes (select is_booting ns)
      → (count_target ns ≡ count_target ms)
        × (shut_down_oldest c sort_slice ns delta ≡ shut_down_oldest c sort_slice ms delta)
  unfolding shut_down_oldest
  sizes_any_order ns ms delta same apart = (
    count_target-Perm same,
    rw
        (
          length-Perm (select-Perm is_powered_on same),
          length-Perm (select-Perm is_booting same),
          same_sort _ _ (select-Perm is_booting same) apart,
        )
        refl,
  )
