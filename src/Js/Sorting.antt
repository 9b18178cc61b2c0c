-- ===== src/Js/Sorting.antt =====
-- The order of texts by UTF-16 code units, and a stable sort by it.
pub mod Contents
pub mod Order
use Prim.Native.Char.{Char, code}
use choice_mind.Prelude.{
  ℕ, String, ◌+◌, ◌-◌, ◌/◌, ◌%◌, Bool, true, false, List, [], ◌∷◌, ◌++◌, if◌then◌else◌, ltb, eqb,
}

-- The code units of a character: itself, or a surrogate pair.
code_units_of : Char → List ℕ
code_units_of c =
    if ltb (code c) 0x10000
    then code c ∷ []
    else (0xd800 + (code c - 0x10000) / 1024) ∷ (0xdc00 + (code c - 0x10000) % 1024) ∷ []

unfoldable pub code_units : String → List ℕ
unfolding code_units_of
code_units String.[] = []
code_units (String.◌∷◌ c s) = code_units_of c ++ code_units s

-- `left < right` on the code units.
units_lt : List ℕ → List ℕ → Bool
units_lt [] [] = false
units_lt [] (y ∷ ys) = true
units_lt (x ∷ xs) [] = false
units_lt (x ∷ xs) (y ∷ ys) = if ltb x y then true else if eqb x y then units_lt xs ys else false

unfoldable pub text_lt : String → String → Bool
unfolding code_units units_lt
text_lt left right = units_lt (code_units left) (code_units right)

module _ {A : Type 0} (key : A → String) where
  unfoldable pub insert_by : A → List A → List A
  insert_by x [] = x ∷ []
  insert_by x (y ∷ ys) = if text_lt (key y) (key x) then y ∷ insert_by x ys else x ∷ y ∷ ys

  -- `xs.sort(…)` by the keys: stable, as an entry goes before those after it with the same key.
  unfoldable pub sort_by : List A → List A
  unfolding insert_by text_lt
  sort_by [] = []
  sort_by (x ∷ xs) = insert_by x (sort_by xs)
