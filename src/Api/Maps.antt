-- ===== src/Api/Maps.antt =====
-- Go's `map[string]string`, as an association list in which a key stands at most once after `set`.
use homelab_autoscaler.Prelude.{
  String, ◌≡◌, refl, Option, none, some, List, [], ◌∷◌, arith, str_eq, eq_iff, if◌then◌else◌,
}

abbrev pub StringMap : Type 0
StringMap = List (String × String)

-- `v, ok := m[k]`
unfoldable pub lookup : StringMap → String → Option String
lookup [] k = none
lookup ((j, v) ∷ m) k = if str_eq j k then some v else lookup m k

abbrev or_empty : Option String → String
or_empty none = ""
or_empty (some v) = v

-- `m[k]`, the empty text where the key is missing.
unfoldable pub value_of : StringMap → String → String
unfolding lookup
value_of m k = or_empty (lookup m k)

-- `m[k] = v`
unfoldable pub set : StringMap → String → String → StringMap
set [] k v = (k, v) ∷ []
set ((j, w) ∷ m) k v = let rest = set m k v in if str_eq j k then (k, v) ∷ m else (j, w) ∷ rest

-- `delete(m, k)`
unfoldable pub delete : StringMap → String → StringMap
delete [] k = []
delete ((j, w) ∷ m) k = let rest = delete m k in if str_eq j k then rest else (j, w) ∷ rest

pub lookup-set :
    (m : StringMap) (k j v : String)
    → lookup (set m k v) j ≡ (if str_eq k j then some v else lookup m j)
unfolding lookup set
lookup-set [] k j v = refl
lookup-set ((i, w) ∷ m) k j v =
    ground (arith, eq_iff k j, eq_iff i k, eq_iff i j, lookup-set m k j v)

pub lookup-delete :
    (m : StringMap) (k j : String)
    → lookup (delete m k) j ≡ (if str_eq k j then none else lookup m j)
unfolding lookup delete
lookup-delete [] k j = ground arith
lookup-delete ((i, w) ∷ m) k j =
    ground (arith, eq_iff k j, eq_iff i k, eq_iff i j, lookup-delete m k j)

pub value_of-set :
    (m : StringMap) (k j v : String)
    → value_of (set m k v) j ≡ (if str_eq k j then v else value_of m j)
unfolding value_of
value_of-set m k j v = rw lookup-set (ground arith)

pub value_of-delete :
    (m : StringMap) (k j : String)
    → value_of (delete m k) j ≡ (if str_eq k j then "" else value_of m j)
unfolding value_of
value_of-delete m k j = rw lookup-delete (ground arith)

pub ruleset map_laws = (lookup-set, lookup-delete, value_of-set, value_of-delete)
