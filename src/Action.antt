-- ===== src/Action.antt =====
-- Go functions that may fail and that read or change what is outside them: an action takes the
-- state and gives back a result with the state after it. What was done before an error stays done.
pub mod Codes
use homelab_autoscaler.Prelude.{String, ◌≡◌, refl, ap, Bool, true, false, List, [], ◌∷◌}

-- The gRPC codes that the server answers with.
pub data Code : Type 0 where
  internal deadline_exceeded invalid_argument failed_precondition unimplemented : Code

-- An `error`: the classes of the API server that the code asks for, the errors that the code makes
-- itself (the text without its arguments), gRPC statuses, and `%w`, which keeps the class of what it wraps.
pub data Error : Type 0 where
  not_found conflict : Error
  failure : String → Error
  wrapped : String → Error → Error
  status : Code → Error

-- `errors.IsNotFound`, which looks through `%w`.
abbrev pub is_not_found : Error → Bool
is_not_found not_found = true
is_not_found (wrapped _ e) = is_not_found e
is_not_found _ = false

-- `errors.IsConflict`, which looks through `%w`.
abbrev pub is_conflict : Error → Bool
is_conflict conflict = true
is_conflict (wrapped _ e) = is_conflict e
is_conflict _ = false

pub data Result {ℓ} (A : Type ℓ) : Type ℓ where
  ok : A → Result A
  err : Error → Result A

abbrev pub Act : Type 0 → Type 0 → Type 0
Act W A = W → Result A × W

module _ {W A : Type 0} where
  abbrev pub pure : A → Act W A
  pure a w = (ok a, w)

  abbrev pub raise : Error → Act W A
  raise e w = (err e, w)

  -- `if err != nil` with a branch that goes on: the error as a value.
  abbrev pub caught : Result A × W → Result (Result A) × W
  caught (r, w) = (ok r, w)

  abbrev pub attempt : Act W A → Act W (Result A)
  attempt m w = caught (m w)

  -- `return fmt.Errorf("…: %w", err)`
  abbrev pub relabelled : String → Result A × W → Result A × W
  relabelled text (ok a, w) = (ok a, w)
  relabelled text (err e, w) = (err (wrapped text e), w)

  abbrev pub wrap : String → Act W A → Act W A
  wrap text m w = relabelled text (m w)

  -- `if err != nil { return status.Errorf(code, …) }`
  abbrev pub coded : Code → Result A × W → Result A × W
  coded code (ok a, w) = (ok a, w)
  coded code (err e, w) = (err (status code), w)

  abbrev pub or_status : Code → Act W A → Act W A
  or_status code m w = coded code (m w)

  -- `if err != nil { v = default }`
  abbrev pub defaulted : A → Result A × W → Result A × W
  defaulted a (ok b, w) = (ok b, w)
  defaulted a (err e, w) = (ok a, w)

  abbrev pub or_else : A → Act W A → Act W A
  or_else a m w = defaulted a (m w)

module _ {W A B : Type 0} where
  abbrev pub continue : Result A × W → (A → Act W B) → Result B × W
  continue (ok a, w) f = f a w
  continue (err e, w) f = (err e, w)

  infixl 10 ◌>>=◌ ◌>>◌
  abbrev pub ◌>>=◌ : Act W A → (A → Act W B) → Act W B
  ◌>>=◌ m f w = continue (m w) f

  abbrev pub ◌>>◌ : Act W A → Act W B → Act W B
  ◌>>◌ m n w = continue (m w) (λ _. n)

module _ {W A B : Type 0} where
  -- Inversion of a successful step: what it returned, and that the rest went on from there.
  pub continue-eq-ok :
      (r : Result A × W) (f : A → Act W B) {b : B} {w : W}
      → continue r f ≡ (ok b, w)
      → (a : A) × (v : W) × (r ≡ (ok a, v)) × (f a v ≡ (ok b, w))
  continue-eq-ok (ok a, v) f h = (a, v, refl, h)
  continue-eq-ok (err e, v) f h = cc

abbrev pub when : {W : Type 0} → Bool → Act W Unit → Act W Unit
when true m = m
when false m = pure tt

module _ {W A : Type 0} where
  pub relabelled-eq-ok :
      (text : String) (r : Result A × W) {a : A} {w : W}
      → relabelled text r ≡ (ok a, w)
      → r ≡ (ok a, w)
  relabelled-eq-ok text (ok a, v) h = h
  relabelled-eq-ok text (err e, v) h = cc

module _ {W A : Type 0} where
  pub coded-eq-ok :
      (code : Code) (r : Result A × W) {a : A} {w : W} → coded code r ≡ (ok a, w) → r ≡ (ok a, w)
  coded-eq-ok code (ok a, v) h = h
  coded-eq-ok code (err e, v) h = cc

  pub pure-eq-ok : {a b : A} {v w : W} → pure a v ≡ (ok b, w) → v ≡ w
  pure-eq-ok h = ap (λ (r : Result A × W). r.1) h

module _ {W : Type 0} where
  -- A guard that lets the code go on has found nothing, and has changed nothing.
  pub when-eq-ok :
      (b : Bool) (e : Error) {v w : W} → when b (raise e) v ≡ (ok tt, w) → (b ≡ false) × (v ≡ w)
  when-eq-ok true e h = absurd (cc)
  when-eq-ok false e h = (refl, ap (λ (r : Result Unit × W). r.1) h)

-- A run of `f` over a list, every call of it successful, from one state to another.
pub data Runs {W A : Type 0} (f : A → Act W Unit) : List A → W → W → Type 0 where
  done : {w : W} → Runs f [] w w
  step :
      {x : A} {xs : List A} {u v w : W} → f x u ≡ (ok tt, v) → Runs f xs v w → Runs f (x ∷ xs) u w
