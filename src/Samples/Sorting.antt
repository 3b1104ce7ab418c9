-- ===== src/Samples/Sorting.antt =====
-- Insertion sort, which does what `sort.Slice` documents.
use mathlib.Core.List.Perm as PermLaws
use mathlib.Core.List.{Perm}
use homelab_autoscaler.Prelude.{
  ◌≡◌, Bool, true, false, List, [], ◌∷◌, arith, Bool-cases, inl, inr, if◌then◌else◌,
}
use homelab_autoscaler.Prelude.Lists.{All}
use homelab_autoscaler.Api.{Node}
use homelab_autoscaler.Grpc.Sizes.{started_before}
use homelab_autoscaler.Grpc.Sizes.Decrease.{IsSorted, SortLaws}

abbrev pub put_in : (Node → Node → Bool) → Node → List Node → List Node
put_in less x [] = x ∷ []
put_in less x (y ∷ ys) = let rest = put_in less x ys in if less y x then y ∷ rest else x ∷ y ∷ ys

abbrev pub insertion_sort : (Node → Node → Bool) → List Node → List Node
insertion_sort less [] = []
insertion_sort less (x ∷ xs) = put_in less x (insertion_sort less xs)

put_in-Perm :
    (less : Node → Node → Bool) (x : Node) (ys : List Node) → Perm (put_in less x ys) (x ∷ ys)
put_in-Perm less x [] = PermLaws.rfl
put_in-Perm less x (y ∷ ys) = elim (Bool-cases (less y x)) [
  | inl h ↦ rw h (PermLaws.trans (PermLaws.cons y (put_in-Perm less x ys)) (PermLaws.swap x y ys))
  | inr h ↦ rw h PermLaws.rfl
]

sort-Perm : (less : Node → Node → Bool) (xs : List Node) → Perm (insertion_sort less xs) xs
sort-Perm less [] = PermLaws.rfl
sort-Perm less (x ∷ xs) =
    PermLaws.trans (put_in-Perm less x (insertion_sort less xs))
      (PermLaws.cons x (sort-Perm less xs))

not_before :
    (x y z : Node)
    → started_before z y ≡ false
    → started_before y x ≡ false
    → started_before z x ≡ false
unfolding started_before
not_before x y z h k = ground arith

not_after : (x y : Node) → started_before y x ≡ true → started_before x y ≡ false
unfolding started_before
not_after x y h = ground arith

module _ (x : Node) where
  put_in-All :
      (y : Node) (ys : List Node)
      → started_before x y ≡ false
      → All (λ z. started_before z y ≡ false) ys
      → All (λ z. started_before z y ≡ false) (put_in started_before x ys)
  put_in-All y [] h k = (h, tt)
  put_in-All y (z ∷ zs) h (k, ks) = elim (Bool-cases (started_before z x)) [
    | inl e ↦ rw (e, All) (k, put_in-All y zs h ks)
    | inr e ↦ rw (e, All) (h, (k, ks))
  ]

  after_rest :
      (y : Node) (ys : List Node)
      → started_before y x ≡ false
      → All (λ z. started_before z y ≡ false) ys
      → All (λ z. started_before z x ≡ false) ys
  after_rest y [] h k = tt
  after_rest y (z ∷ zs) h (k, ks) = (not_before x y z k h, after_rest y zs h ks)

  put_in-IsSorted :
      (ys : List Node)
      → IsSorted started_before ys
      → IsSorted started_before (put_in started_before x ys)
  put_in-IsSorted [] h = (tt, tt)
  put_in-IsSorted (y ∷ ys) (k, h) = elim (Bool-cases (started_before y x)) [
    | inl e ↦ rw (e, IsSorted) (put_in-All y ys (not_after x y e) k, put_in-IsSorted ys h)
    | inr e ↦ rw (e, IsSorted) ((e, after_rest y ys e k), (k, h))
  ]

sort-IsSorted : (xs : List Node) → IsSorted started_before (insertion_sort started_before xs)
sort-IsSorted [] = tt
sort-IsSorted (x ∷ xs) = put_in-IsSorted x (insertion_sort started_before xs) (sort-IsSorted xs)

pub sorting_laws : SortLaws insertion_sort
sorting_laws = record { sorted = sort-IsSorted; same_items = sort-Perm started_before }
