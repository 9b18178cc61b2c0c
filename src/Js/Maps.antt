-- ===== src/Js/Maps.antt =====
-- `Map` with texts as keys: the entries in the order in which their keys came.
pub mod Lookup
use choice_mind.Prelude.{
  String, ◌≡◌, refl, List, [], ◌∷◌, ◌++◌, Option, none, some, arith, if◌then◌else◌, ◌==◌, eq_iff,
}

module _ {V : Type 0} where
  unfoldable pub get : List (String × V) → String → Option V
  get [] k = none
  get ((j, v) ∷ m) k = if j == k then some v else get m k

  unfoldable pub set : List (String × V) → String → V → List (String × V)
  set [] k v = (k, v) ∷ []
  set ((j, w) ∷ m) k v = if j == k then (k, v) ∷ m else (j, w) ∷ set m k v

  pub get-set :
      (m : List (String × V)) (k j : String) (v : V)
      → get (set m k v) j ≡ (if k == j then some v else get m j)
  unfolding get set
  get-set [] k j v = refl
  get-set ((i, w) ∷ m) k j v = ground (arith, eq_iff k j, eq_iff i k, eq_iff i j, get-set m k j v)

  -- `new Map(xs.map((x) => [key(x), x]))`: a later entry takes the place of an earlier one.
  unfoldable pub index_by : (V → String) → List (String × V) → List V → List (String × V)
  unfolding set
  index_by key m [] = m
  index_by key m (x ∷ xs) = index_by key (set m (key x) x) xs

-- `map.get(key) ?? []`
abbrev pub or_empty {ℓ} : {V : Type ℓ} → Option (List V) → List V
or_empty none = []
or_empty (some xs) = xs

module _ {V : Type 0} (key : V → String) where
  -- The loop that pushes each value on the list under its key.
  unfoldable pub group_by : List (String × List V) → List V → List (String × List V)
  unfolding set get
  group_by m [] = m
  group_by m (x ∷ xs) = group_by (set m (key x) (or_empty (get m (key x)) ++ x ∷ [])) xs
