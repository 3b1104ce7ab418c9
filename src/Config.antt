-- ===== src/Config.antt =====
-- The namespace configuration (internal/config/namespace.go). A Go string is its bytes. The
-- loop of `Validate` decodes characters, but every byte past ASCII begins a character that it refuses,
-- so a walk over the bytes stops at the same place with the same kind of error.
pub mod Names
use Prim.Native.Char.{code}
use Prim.Native.String
use homelab_autoscaler.Prelude.{
  ℕ, suc, ◌-◌, String, Bool, true, false, not, ◌&&◌, ◌||◌, Option, none, some, List, [], ◌∷◌, ltb,
  leb, ◌==◌, str_eq, if◌then◌else◌,
}
use homelab_autoscaler.Prelude.Lists.{length, exists_in}

abbrev pub codes : String → List ℕ
codes String.[] = []
codes (String.◌∷◌ c s) = code c ∷ codes s

pub record NamespaceConfig : Type 0 where
  pub namespace : List ℕ

abbrev pub default_namespace : List ℕ
default_namespace = codes "homelab-autoscaler-system"

-- `NewNamespaceConfig`, given the value of HOMELAB_AUTOSCALER_NAMESPACE, empty where it is not set.
unfoldable pub new_namespace_config : List ℕ → NamespaceConfig
new_namespace_config [] = record { namespace = default_namespace }
new_namespace_config (b ∷ bs) = record { namespace = b ∷ bs }

unfoldable pub get : NamespaceConfig → List ℕ
get c = c.namespace

unfoldable pub set : NamespaceConfig → List ℕ → NamespaceConfig
set c namespace = record c { namespace = namespace }

unfoldable pub is_lower : ℕ → Bool
is_lower c = leb b'a' c && leb c b'z'

unfoldable pub is_digit : ℕ → Bool
is_digit c = leb b'0' c && leb c b'9'

-- The errors of `Validate`.
pub data Fault : Type 0 where
  bad_length no_alphanumeric bad_character bad_start bad_end : Fault

-- The checks on the byte `c` at the index `i` of a text of `n` bytes.
unfoldable pub check_character : ℕ → ℕ → ℕ → Option Fault
unfolding is_lower is_digit
check_character i n c =
    if (ltb c b'a' || ltb b'z' c) && (ltb c b'0' || ltb b'9' c) && not (c == b'-')
    then some bad_character
    else if i == 0 && (c == b'-' || (leb b'0' c && leb c b'9'))
    then some bad_start
    else if i == n - 1 && c == b'-'
    then some bad_end
    else none

-- The loop over the characters, from the index `i`.
unfoldable pub check_from : ℕ → ℕ → List ℕ → Option Fault
check_from i n [] = none
check_from i n (c ∷ cs) =
    let rest = check_from (suc i) n cs in
    elim (check_character i n c) [ some fault ↦ some fault | none ↦ rest ]

-- `Validate`: `none` is nil.
unfoldable pub validate_codes : List ℕ → Option Fault
validate_codes ns =
    if length ns == 0 || ltb 63 (length ns)
    then some bad_length
    else if not (exists_in (λ c. is_lower c || is_digit c) ns)
    then some no_alphanumeric
    else check_from 0 (length ns) ns

unfoldable pub validate : NamespaceConfig → Option Fault
validate c = validate_codes c.namespace

unfoldable pub get_or_default : NamespaceConfig → List ℕ
get_or_default c = elim (validate c) [ some _ ↦ default_namespace | none ↦ c.namespace ]
