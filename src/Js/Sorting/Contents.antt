-- ===== src/Js/Sorting/Contents.antt =====
-- Sorting keeps the entries: what is in the list, what holds of all, and whether the keys are distinct.
use choice_mind.Prelude.{String, ◌≡◌, ◌↔◌, ◌⊎◌, List, [], ◌∷◌, map, arith, Any}
use choice_mind.Js.Sets.{In}
use choice_mind.Js.Sorting.{insert_by, sort_by}

module _ {A : Type 0} (key : A → String) where
  Any-insert_by :
      (P : A → Type 0) (x : A) (ys : List A) → Any P (insert_by key x ys) ↔ (P x ⊎ Any P ys)
  unfolding insert_by
  Any-insert_by P x [] = ground arith
  Any-insert_by P x (y ∷ ys) = ground (arith, Any-insert_by P x ys)

  pub Any-sort_by : (P : A → Type 0) (xs : List A) → Any P (sort_by key xs) ↔ Any P xs
  unfolding sort_by
  Any-sort_by P [] = (λ h. h, λ h. h)
  Any-sort_by P (x ∷ xs) = ground (arith, Any-insert_by P x (sort_by key xs), Any-sort_by P xs)

  In-map-insert_by :
      (x : A) (ys : List A) (k : String)
      → In k (map key (insert_by key x ys)) ↔ ((key x ≡ k) ⊎ In k (map key ys))
  unfolding insert_by
  In-map-insert_by x [] k = ground arith
  In-map-insert_by x (y ∷ ys) k = ground (arith, In-map-insert_by x ys k)

  pub In-map-sort_by :
      (xs : List A) (k : String) → In k (map key (sort_by key xs)) ↔ In k (map key xs)
  unfolding sort_by
  In-map-sort_by [] k = (λ h. h, λ h. h)
  In-map-sort_by (x ∷ xs) k =
      ground (arith, In-map-insert_by x (sort_by key xs) k, In-map-sort_by xs k)
