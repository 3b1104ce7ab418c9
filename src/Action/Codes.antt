-- ===== src/Action/Codes.antt =====
-- Actions whose errors are gRPC statuses, one rule for each way to build an action.
use mathlib.Core.List.{Mem, mem-cons_self, mem-cons_of_mem}
use homelab_autoscaler.Prelude.{◌≡◌, refl, Bool, true, false, List, if◌then◌else◌}
use homelab_autoscaler.Action.{
  Code, status, Result, ok, err, Act, pure, raise, attempt, coded, or_status, defaulted, or_else,
  when, continue, ◌>>=◌, ◌>>◌,
}

-- A result without an error, or with a gRPC status of one of the codes.
abbrev pub Coded : {W A : Type 0} → List Code → Result A × W → Type 0
Coded codes (ok a, w) = Unit
Coded codes (err e, w) = (code : Code) × (e ≡ status code) × Mem code codes

-- Whatever the state, the action has such a result.
pub record Answers {W A : Type 0} (codes : List Code) (m : Act W A) : Type 0 where
  pub at : (w : W) → Coded codes (m w)

module _ {W A : Type 0} (codes : List Code) where
  defaulted-Coded : (a : A) (r : Result A × W) → Coded codes (defaulted a r)
  defaulted-Coded a (ok b, w) = tt
  defaulted-Coded a (err e, w) = tt

module _ {W A : Type 0} {codes : List Code} where
  pub Answers-pure : (a : A) → Answers {W = W} codes (pure a)
  Answers-pure a = record { at = λ w. tt }

  pub Answers-raise :
      (code : Code) → Mem code codes → Answers {W = W} {A = A} codes (raise (status code))
  Answers-raise code m = record { at = λ w. (code, refl, m) }

  coded-Coded : (code : Code) (r : Result A × W) → Mem code codes → Coded codes (coded code r)
  coded-Coded code (ok a, w) m = tt
  coded-Coded code (err e, w) m = (code, refl, m)

  pub Answers-or_status :
      (code : Code) (m : Act W A) → Mem code codes → Answers codes (or_status code m)
  Answers-or_status code m k = record { at = λ w. coded-Coded code (m w) k }

  pub Answers-attempt : (m : Act W A) → Answers codes (attempt m)
  Answers-attempt m = record { at = λ w. tt }

  pub Answers-or_else : (a : A) (m : Act W A) → Answers codes (or_else a m)
  Answers-or_else a m = record { at = λ w. defaulted-Coded codes a (m w) }

  pub Answers-if :
      (b : Bool) (m n : Act W A)
      → Answers codes m
      → Answers codes n
      → Answers codes (if b then m else n)
  Answers-if true m n hm hn = hm
  Answers-if false m n hm hn = hn

module _ {W : Type 0} {codes : List Code} where
  pub Answers-when : (b : Bool) (m : Act W Unit) → Answers codes m → Answers codes (when b m)
  Answers-when true m h = h
  Answers-when false m h = Answers-pure tt

module _ {W A B : Type 0} {codes : List Code} where
  continue-Coded :
      (r : Result A × W) (f : A → Act W B)
      → Coded codes r
      → ((a : A) → Answers codes (f a))
      → Coded codes (continue r f)
  continue-Coded (ok a, w) f h g = (g a).at w
  continue-Coded (err e, w) f h g = h

  pub Answers-bind :
      (m : Act W A) (f : A → Act W B)
      → Answers codes m
      → ((a : A) → Answers codes (f a))
      → Answers codes (m >>= f)
  Answers-bind m f h g = record { at = λ w. continue-Coded (m w) f (h.at w) g }

  pub Answers-then :
      (m : Act W A) (n : Act W B) → Answers codes m → Answers codes n → Answers codes (m >> n)
  Answers-then m n h k = Answers-bind m (λ _. n) h (λ _. k)

pub ruleset answers = (
  mem-cons_self, mem-cons_of_mem, Answers-pure, Answers-raise, Answers-or_status, Answers-attempt,
  Answers-or_else, Answers-if, Answers-when, Answers-bind, Answers-then,
)
