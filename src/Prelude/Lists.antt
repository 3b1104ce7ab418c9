-- ===== src/Prelude/Lists.antt =====
-- Lists over the native numbers.
use Prim.Native.Nat.{ℕ, zero, suc, ◌<◌}
use mathlib.Core.Path.{◌≡◌, refl}
use native.Mathlib.Omega.{arith}
use mathlib.Core.Logic.{◌⊎◌, inl, inr}
use mathlib.Core.Bool.{Bool, true, false}
use mathlib.Core.Option.{Option, none, some}
use mathlib.Core.List.{List, [], ◌∷◌, ◌++◌}

module _ {ℓ} {A : Type ℓ} where
  abbrev pub length : List A → ℕ
  length [] = 0
  length (_ ∷ xs) = suc (length xs)

  -- The items that pass a test, as a Go loop with `append` collects them.
  unfoldable pub select : (A → Bool) → List A → List A
  select p [] = []
  select p (x ∷ xs) = let rest = select p xs in elim (p x) [ true ↦ x ∷ rest | false ↦ rest ]

  -- The first item that passes a test: a loop with `break`.
  unfoldable pub find_first : (A → Bool) → List A → Option A
  find_first p [] = none
  find_first p (x ∷ xs) = let rest = find_first p xs in elim (p x) [ true ↦ some x | false ↦ rest ]

  -- Whether a loop over the list meets an item that passes.
  unfoldable pub exists_in : (A → Bool) → List A → Bool
  exists_in p [] = false
  exists_in p (x ∷ xs) = let rest = exists_in p xs in elim (p x) [ true ↦ true | false ↦ rest ]

  abbrev pub take : ℕ → List A → List A
  take zero xs = []
  take (suc k) [] = []
  take (suc k) (x ∷ xs) = x ∷ take k xs

  abbrev pub drop : ℕ → List A → List A
  drop zero xs = xs
  drop (suc k) [] = []
  drop (suc k) (x ∷ xs) = drop k xs

  pub take-drop : (k : ℕ) (xs : List A) → take k xs ++ drop k xs ≡ xs
  take-drop zero xs = refl
  take-drop (suc k) [] = refl
  take-drop (suc k) (x ∷ xs) = cc (take-drop k xs)

  -- So many items are taken, or all of them where there are fewer.
  pub length-take :
      (k : ℕ) (xs : List A)
      → (length (take k xs) ≡ k) ⊎ ((length (take k xs) < k) × (drop k xs ≡ []))
  length-take zero xs = inl refl
  length-take (suc k) [] = inr (omega arith, refl)
  length-take (suc k) (x ∷ xs) = elim (length-take k xs) [
    | inl h ↦ inl (omega (arith, h))
    | inr (h, e) ↦ inr (omega (arith, h), e)
  ]

module _ {ℓ κ} {A : Type ℓ} (P : A → Type κ) where
  abbrev pub All : List A → Type κ
  All [] = Unit
  All (x ∷ xs) = P x × All xs

  pub All-drop : (k : ℕ) (xs : List A) → All xs → All (drop k xs)
  All-drop zero xs h = h
  All-drop (suc k) [] h = h
  All-drop (suc k) (x ∷ xs) h = All-drop k xs h.1

module _ {ℓ} {A : Type ℓ} (p : A → Bool) where
  -- The item passes, and no item before it does.
  abbrev pub FirstIn : List A → A → Type ℓ
  FirstIn xs x =
      (before after : List A) × (xs ≡ before ++ x ∷ after)
      × (p x ≡ true)
      × All (λ y. p y ≡ false) before

  first_step :
      (y : A) (ys : List A) (x : A) (b : Bool)
      → p y ≡ b
      → (find_first p ys ≡ some x → FirstIn ys x)
      → elim b [ true ↦ some y | false ↦ find_first p ys ] ≡ some x
      → FirstIn (y ∷ ys) x
  first_step y ys x true e rest h = ([], ys, cc, ground arith, tt)
  first_step y ys x false e rest h =
      let (before, after, split, passes, fail) = rest h in
      (y ∷ before, after, cc, passes, (e, fail))

  -- What `find_first` finds is the first item that passes.
  pub find_first-FirstIn : (xs : List A) (x : A) → find_first p xs ≡ some x → FirstIn xs x
  unfolding find_first
  find_first-FirstIn [] x h = absurd (cc)
  find_first-FirstIn (y ∷ ys) x h = first_step y ys x (p y) refl (find_first-FirstIn ys x) h

-- The two values of a test.
decided : (b : Bool) → (b ≡ true) ⊎ (b ≡ false)
decided true = inl refl
decided false = inr refl

module _ {ℓ} {A : Type ℓ} (p : A → Bool) where
  -- What is selected passes.
  pub All-select : (xs : List A) → All (λ x. p x ≡ true) (select p xs)
  unfolding select
  All-select [] = tt
  All-select (x ∷ xs) = elim (decided (p x)) [
    | inl e ↦ rw (e, All) (e, All-select xs)
    | inr e ↦ rw (e, All) (All-select xs)
  ]

  -- An item that passes stays, between the same neighbours.
  pub select-kept :
      (before after : List A) (x : A)
      → p x ≡ true
      → select p (before ++ x ∷ after) ≡ select p before ++ x ∷ select p after
  unfolding select
  select-kept [] after x h = rw h
  select-kept (y ∷ before) after x h = elim (decided (p y)) [
    | inl e ↦ rw (e, select) (cc (select-kept before after x h))
    | inr e ↦ rw (e, select) (select-kept before after x h)
  ]

module _ {ℓ κ} {A : Type ℓ} (P : A → Type κ) where
  pub All-left : (xs ys : List A) → All P (xs ++ ys) → All P xs
  All-left [] ys h = tt
  All-left (x ∷ xs) ys h = (h.0, All-left xs ys h.1)
