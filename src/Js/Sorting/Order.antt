-- ===== src/Js/Sorting/Order.antt =====
-- The order of texts by code units is strict and total: what the queries' `ORDER BY` relies on.
use choice_mind.Prelude.{ℕ, String, ◌≡◌, refl, true, false, List, [], ◌∷◌, arith}
use choice_mind.Js.Sorting.{text_lt, units_lt, code_units}

units_lt-asym : (xs ys : List ℕ) → units_lt xs ys ≡ true → units_lt ys xs ≡ false
unfolding units_lt
units_lt-asym [] [] h = refl
units_lt-asym [] (y ∷ ys) h = refl
units_lt-asym (x ∷ xs) [] h = ground arith
units_lt-asym (x ∷ xs) (y ∷ ys) h = ground (arith, units_lt-asym xs ys)

units_lt-negative :
    (xs ys zs : List ℕ) → units_lt xs ys ≡ false → units_lt ys zs ≡ false → units_lt xs zs ≡ false
unfolding units_lt
units_lt-negative [] [] zs h k = k
units_lt-negative [] (y ∷ ys) zs h k = ground arith
units_lt-negative (x ∷ xs) [] [] h k = refl
units_lt-negative (x ∷ xs) [] (z ∷ zs) h k = ground arith
units_lt-negative (x ∷ xs) (y ∷ ys) [] h k = refl
units_lt-negative (x ∷ xs) (y ∷ ys) (z ∷ zs) h k = ground (arith, units_lt-negative xs ys zs)

pub text_lt-asym : (s t : String) → text_lt s t ≡ true → text_lt t s ≡ false
unfolding text_lt
text_lt-asym s t = units_lt-asym (code_units s) (code_units t)

pub text_lt-negative :
    (s t u : String) → text_lt s t ≡ false → text_lt t u ≡ false → text_lt s u ≡ false
unfolding text_lt
text_lt-negative s t u = units_lt-negative (code_units s) (code_units t) (code_units u)
