-- ===== src/Prelude/Perms.antt =====
-- Permutations of lists over the native numbers, as they meet the loops that select and count.
use mathlib.Core.Logic.{∥∥₁_map, ∥∥₁_elim}
use mathlib.Core.Logic.Or
use mathlib.Core.List.{Perm, Permᴰ, Mem, mem-cons, mem-cons_self, mem-cons_of_mem, not-mem-nil}
use mathlib.Core.List.Perm as PermLaws
use mathlib.Core.List.Permᴰ as Steps
use native.Mathlib.Nat.{ℕ_set}
use homelab_autoscaler.Prelude.{
  suc, ◌≡◌, refl, sym, ap, ◌∙◌, subst, inl, inr, Bool, Bool-cases, List, [], ◌∷◌, ◌++◌, not,
}
use homelab_autoscaler.Prelude.Lists.{length, select, All}

module _ {ℓ} {A : Type ℓ} where
  Steps-length : {xs ys : List A} → Permᴰ xs ys → length xs ≡ length ys
  Steps-length Steps.nil = refl
  Steps-length (Steps.cons e d) = ap suc (Steps-length d)
  Steps-length (Steps.swap e f) = refl
  Steps-length (Steps.trans d e) = Steps-length d ∙ Steps-length e

  pub length-Perm : {xs ys : List A} → Perm xs ys → length xs ≡ length ys
  length-Perm {xs} {ys} p = ∥∥₁_elim p (ℕ_set (length xs) (length ys)) Steps-length

  pub All-at {κ} :
      {P : A → Type κ} {xs : List A} {a : A} → ((b : A) → IsProp (P b)) → All P xs → Mem a xs → P a
  All-at {xs = []} prop h m = absurd (not-mem-nil m)
  All-at {P = P} {xs = x ∷ xs} {a = a} prop h m =
      Or.elim (prop a) (mem-cons.0 m) (λ e. subst P (sym e) h.0) (λ n. All-at {xs = xs} prop h.1 n)

module _ {ℓ} {A : Type ℓ} (p : A → Bool) where
  select_cons :
      (a : A) (xs ys : List A)
      → Permᴰ (select p xs) (select p ys)
      → Permᴰ (select p (a ∷ xs)) (select p (a ∷ ys))
  unfolding select
  select_cons a xs ys d = elim (Bool-cases (p a)) [
    | inl h ↦ rw (h, select) (Steps.cons refl d)
    | inr h ↦ rw (h, select) d
  ]

  select_swap : (a b : A) (xs : List A) → Permᴰ (select p (a ∷ b ∷ xs)) (select p (b ∷ a ∷ xs))
  unfolding select
  select_swap a b xs = elim (Bool-cases (p a)) [
    | inl h ↦ elim (Bool-cases (p b)) [
      | inl k ↦ rw (h, k, select, h) (Steps.swap refl refl)
      | inr k ↦ rw (h, k, select, h) (Steps.refl _)
    ]
    | inr h ↦ elim (Bool-cases (p b)) [
      | inl k ↦ rw (h, k, select, h) (Steps.refl _)
      | inr k ↦ rw (h, k, select, h) (Steps.refl _)
    ]
  ]

  Steps-select : {xs ys : List A} → Permᴰ xs ys → Permᴰ (select p xs) (select p ys)
  unfolding select
  Steps-select Steps.nil = Steps.nil
  Steps-select (Steps.cons {a = a} {l₁ = xs} {l₂ = ys} e d) =
      subst (λ b. Permᴰ (select p (a ∷ xs)) (select p (b ∷ ys))) e
        (select_cons a xs ys (Steps-select d))
  Steps-select (Steps.swap {a = a} {b = b} {a' = a'} {l = l} e f) =
      subst (λ x. Permᴰ (select p (a ∷ b ∷ l)) (select p (a' ∷ x ∷ l))) e
        (subst (λ x. Permᴰ (select p (a ∷ b ∷ l)) (select p (x ∷ a ∷ l))) f (select_swap a b l))
  Steps-select (Steps.trans d e) = Steps.trans (Steps-select d) (Steps-select e)

  pub select-Perm : {xs ys : List A} → Perm xs ys → Perm (select p xs) (select p ys)
  select-Perm q = ∥∥₁_map q Steps-select

  -- What passes and what does not, together, is the whole list.
  Steps-split : (xs : List A) → Permᴰ (select p xs ++ select (λ x. not (p x)) xs) xs
  unfolding select
  Steps-split [] = Steps.nil
  Steps-split (x ∷ xs) = elim (Bool-cases (p x)) [
    | inl h ↦ rw (h, select) (Steps.cons refl (Steps-split xs))
    | inr h ↦
        rw (h, select)
          (Steps.trans (Steps.middle x (select p xs) (select (λ y. not (p y)) xs))
            (Steps.cons refl (Steps-split xs)))
  ]

  pub split-Perm : (xs : List A) → Perm (select p xs ++ select (λ x. not (p x)) xs) xs
  split-Perm xs = ∣ Steps-split xs ∣₁

module _ {ℓ κ} {A : Type ℓ} {P : A → Type κ} where
  All-of : (xs : List A) → ((a : A) → Mem a xs → P a) → All P xs
  All-of [] f = tt
  All-of (x ∷ xs) f = (f x mem-cons_self, All-of xs (λ a m. f a (mem-cons_of_mem x m)))

  pub All-Perm : {xs ys : List A} → ((a : A) → IsProp (P a)) → Perm xs ys → All P xs → All P ys
  All-Perm {xs} {ys} prop same h =
      All-of ys (λ a m. All-at {xs = xs} prop h (PermLaws.subset (PermLaws.symm same) a m))
