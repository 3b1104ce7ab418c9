-- ===== src/Config/Names.antt =====
-- Which names internal/config/namespace.go accepts.
use homelab_autoscaler.Prelude.{
  ℕ, suc, ◌+◌, ◌-◌, ◌≤◌, ◌<◌, ◌≡◌, ◌≢◌, refl, ◌↔◌, ◌⊎◌, true, ◌||◌, none, some, List, [], ◌∷◌,
  arith, ◌==◌, Option-cases, subst, sym, inl, inr,
}
use homelab_autoscaler.Prelude.Lists.{length, exists_in, All}
use homelab_autoscaler.Config.{
  NamespaceConfig, Fault, is_lower, is_digit, check_character, check_from, validate_codes, validate,
  get, get_or_default, default_namespace,
}

-- A byte that a name may hold.
abbrev pub Allowed : ℕ → Type 0
Allowed c = (is_lower c || is_digit c || c == b'-') ≡ true

-- The last byte is no hyphen.
abbrev pub EndsWell : List ℕ → Type 0
EndsWell [] = Unit
EndsWell (c ∷ []) = c ≢ b'-'
EndsWell (c ∷ d ∷ cs) = EndsWell (d ∷ cs)

-- The names that are accepted: 1 to 63 bytes, lower-case letters, digits and hyphens only, a letter
-- first and no hyphen last.
abbrev pub IsName : List ℕ → Type 0
IsName [] = ⊥
IsName (c ∷ cs) = (is_lower c ≡ true) × All Allowed cs × EndsWell (c ∷ cs) × (suc (length cs) ≤ 63)

check_from-cons :
    (i n c : ℕ) (cs : List ℕ)
    → (check_from i n (c ∷ cs) ≡ none)
      ↔ ((check_character i n c ≡ none) × (check_from (suc i) n cs ≡ none))
unfolding check_from
check_from-cons i n c cs = elim (Option-cases (check_character i n c)) [
  | inl e ↦ (λ h. (e, rw (e, check_from) at h), λ h. rw (e, check_from) h.1)
  | inr (fault, e) ↦ (λ h. absurd (cc (rw (e, check_from) at h)), λ h. absurd (cc (e, h.0)))
]

module _ (i n c : ℕ) where
  middle_character : suc i < n - 1 → (check_character (suc i) n c ≡ none) ↔ Allowed c
  unfolding check_character
  middle_character h = (λ k. ground arith, λ k. ground arith)

  last_character : n ≡ suc (suc i) → (check_character (suc i) n c ≡ none) ↔ (Allowed c × (c ≢ b'-'))
  unfolding check_character
  last_character h = (λ k. ground arith, λ k. ground arith)

first_character : (n c : ℕ) → (check_character 0 n c ≡ none) ↔ (is_lower c ≡ true)
unfolding check_character
first_character n c = (λ k. ground arith, λ k. ground arith)

check_tail :
    (i n : ℕ) (cs : List ℕ)
    → n ≡ suc i + length cs
    → (check_from (suc i) n cs ≡ none) ↔ (All Allowed cs × EndsWell cs)
check_tail i n [] e = (λ _. (tt, tt), λ _. unfold check_from in refl)
check_tail i n (c ∷ []) e =
    let cons = check_from-cons (suc i) n c [] in
    let here = last_character i n c (omega arith) in
    (
      λ h. (((here.0 (cons.0 h).0).0, tt), (here.0 (cons.0 h).0).1),
      λ h. cons.1 (here.1 (h.0.0, h.1), unfold check_from in refl),
    )
check_tail i n (c ∷ d ∷ cs) e =
    let rest = check_tail (suc i) n (d ∷ cs) (omega arith) in
    let cons = check_from-cons (suc i) n c (d ∷ cs) in
    let here = middle_character i n c (omega arith) in
    (
      λ h. ((here.0 (cons.0 h).0, (rest.0 (cons.0 h).1).0), (rest.0 (cons.0 h).1).1),
      λ h. cons.1 (here.1 h.0.0, rest.1 (h.0.1, h.1)),
    )

lower-not-hyphen : (c : ℕ) → is_lower c ≡ true → c ≢ b'-'
unfolding is_lower
lower-not-hyphen c h = ground arith

check_each :
    (c : ℕ) (cs : List ℕ)
    → (check_from 0 (suc (length cs)) (c ∷ cs) ≡ none)
      ↔ ((is_lower c ≡ true) × All Allowed cs × EndsWell (c ∷ cs))
check_each c [] =
    let cons = check_from-cons 0 1 c [] in
    let here = first_character 1 c in
    (
      λ h. (here.0 (cons.0 h).0, tt, lower-not-hyphen c (here.0 (cons.0 h).0)),
      λ h. cons.1 (here.1 h.0, unfold check_from in refl),
    )
check_each c (d ∷ cs) =
    let cons = check_from-cons 0 (suc (suc (length cs))) c (d ∷ cs) in
    let here = first_character (suc (suc (length cs))) c in
    let rest = check_tail 0 (suc (suc (length cs))) (d ∷ cs) (omega arith) in
    (
      λ h. (here.0 (cons.0 h).0, (rest.0 (cons.0 h).1).0, (rest.0 (cons.0 h).1).1),
      λ h. cons.1 (here.1 h.0, rest.1 (h.1, h.2)),
    )

module _ (c : ℕ) (cs : List ℕ) where
  passes_checks :
      validate_codes (c ∷ cs) ≡ none
      → (check_from 0 (suc (length cs)) (c ∷ cs) ≡ none) × (suc (length cs) ≤ 63)
  unfolding validate_codes
  passes_checks h = ground arith

  has_letter : is_lower c ≡ true → exists_in (λ d. is_lower d || is_digit d) (c ∷ cs) ≡ true
  unfolding exists_in
  has_letter h = ground arith

  validate_passes :
      exists_in (λ d. is_lower d || is_digit d) (c ∷ cs) ≡ true
      → check_from 0 (suc (length cs)) (c ∷ cs) ≡ none
      → suc (length cs) ≤ 63
      → validate_codes (c ∷ cs) ≡ none
  unfolding validate_codes
  validate_passes e h k = rw e (ground arith)

empty_fails : validate_codes [] ≢ none
unfolding validate_codes
empty_fails h = cc

-- A name passes `Validate` exactly if it has 1 to 63 bytes, all of them lower-case letters, digits
-- or hyphens, the first a letter and the last no hyphen. (So a digit at the start is refused.)
pub validate-IsName : (ns : List ℕ) → (validate_codes ns ≡ none) ↔ IsName ns
validate-IsName [] = (λ h. empty_fails h, λ h. absurd h)
validate-IsName (c ∷ cs) = (
  λ h.
      let (k, short) = passes_checks c cs h in
      let (lower, allowed, ends) = (check_each c cs).0 k in (lower, allowed, ends, short),
  λ (lower, allowed, ends, short).
      validate_passes c cs (has_letter c cs lower) ((check_each c cs).1 (lower, allowed, ends))
        short,
)

default_passes : validate_codes default_namespace ≡ none
unfolding validate_codes check_from check_character exists_in is_lower is_digit
default_passes = refl

module _ (c : NamespaceConfig) where
  get_or_default-accepted : validate c ≡ none → get_or_default c ≡ c.namespace
  unfolding get_or_default
  get_or_default-accepted e = rw (e, get_or_default)

  get_or_default-refused : (f : Fault) → validate c ≡ some f → get_or_default c ≡ default_namespace
  unfolding get_or_default
  get_or_default-refused f e = rw (e, get_or_default)

  validate-namespace : validate c ≡ none → IsName c.namespace
  unfolding validate
  validate-namespace e = (validate-IsName c.namespace).0 e

-- `GetOrDefault` always answers with a name that `Validate` accepts: the configured name if it is
-- accepted, and otherwise the default one.
pub get_or_default-IsName :
    (c : NamespaceConfig)
    → IsName (get_or_default c)
      × (((get_or_default c ≡ get c) × (validate c ≡ none))
          ⊎ (get_or_default c ≡ default_namespace))
unfolding get
get_or_default-IsName c = elim (Option-cases (validate c)) [
  | inl e ↦
      let q = get_or_default-accepted c e in
      (subst (λ (ns : List ℕ). IsName ns) (sym q) (validate-namespace c e), inl (q, e))
  | inr (f, e) ↦
      let q = get_or_default-refused c f e in
      (
        subst (λ (ns : List ℕ). IsName ns) (sym q)
            ((validate-IsName default_namespace).0 default_passes),
        inr q,
      )
]
