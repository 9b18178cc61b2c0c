-- ===== src/Research/Tables/Ordering.antt =====
-- The first of the ordered rows is one that no row goes before.
use mathlib.Core.Option.{some-injective}
use choice_mind.Prelude.{
  ◌≡◌, refl, subst, inl, inr, Bool, true, false, List, [], ◌∷◌, some, arith, All, All-map, select,
  Bool-cases,
}
use choice_mind.Js.Sorting.Order.{text_lt-asym, text_lt-negative}
use choice_mind.Research.Tables.{JobRow, insert_row, order_by, first_row, job_before}
use choice_mind.Research.Tables.Rows.{In, All-at, All-insert_row, In-select}

pub job_before-asym : (a b : JobRow) → job_before a b ≡ true → job_before b a ≡ false
unfolding job_before
job_before-asym a b h = ground (arith, text_lt-asym a.job_id b.job_id)

pub job_before-negative :
    (a b c : JobRow) → job_before a b ≡ false → job_before b c ≡ false → job_before a c ≡ false
unfolding job_before
job_before-negative a b c h k = ground (arith, text_lt-negative a.job_id b.job_id c.job_id)

module _ {A : Type 0} (before : A → A → Bool)
    (asym : (a b : A) → before a b ≡ true → before b a ≡ false)
    (negative : (a b c : A) → before a b ≡ false → before b c ≡ false → before a c ≡ false) where
  abbrev Leads : List A → Type 0
  Leads [] = Unit {0}
  Leads (y ∷ ys) = All (λ z. before z y ≡ false) (y ∷ ys)

  irreflexive : (a : A) → before a a ≡ false
  irreflexive a = elim (Bool-cases (before a a)) [ inl e ↦ asym a a e | inr e ↦ e ]

  insert_row-Leads : (x : A) (xs : List A) → Leads xs → Leads (insert_row before x xs)
  unfolding insert_row
  insert_row-Leads x [] h = (irreflexive x, tt)
  insert_row-Leads x (y ∷ ys) (h, hs) = elim (Bool-cases (before y x)) [
    | inl e ↦ rw e (h, All-insert_row (λ z. before z y ≡ false) before x ys (asym y x e) hs)
    | inr e ↦ rw e (irreflexive x, (e, All-map (λ z k. negative z y x k e) ys hs))
  ]

  order_by-Leads : (xs : List A) → Leads (order_by before xs)
  unfolding order_by
  order_by-Leads [] = tt
  order_by-Leads (x ∷ xs) = insert_row-Leads x (order_by before xs) (order_by-Leads xs)

  In-insert_row_self : (x : A) (xs : List A) → In x (insert_row before x xs)
  unfolding insert_row
  In-insert_row_self x [] = inl refl
  In-insert_row_self x (y ∷ ys) = elim (Bool-cases (before y x)) [
    | inl e ↦ rw e (inr (In-insert_row_self x ys))
    | inr e ↦ rw e (inl refl)
  ]

  In-insert_row : (x z : A) (xs : List A) → In z xs → In z (insert_row before x xs)
  unfolding insert_row
  In-insert_row x z [] i = absurd i
  In-insert_row x z (y ∷ ys) i = elim (Bool-cases (before y x)) [
    | inr e ↦ rw e (inr i)
    | inl e ↦ rw e (elim i [ inl h ↦ inl h | inr h ↦ inr (In-insert_row x z ys h) ])
  ]

  pub In-order_by : (z : A) (xs : List A) → In z xs → In z (order_by before xs)
  unfolding order_by
  In-order_by z [] i = absurd i
  In-order_by z (x ∷ xs) (inl e) =
      subst (λ w. In w (insert_row before x (order_by before xs))) e
        (In-insert_row_self x (order_by before xs))
  In-order_by z (x ∷ xs) (inr i) = In-insert_row x z (order_by before xs) (In-order_by z xs i)

  -- No row that meets the condition goes before the one that the query returns.
  pub first_row-Leads :
      (p : A → Bool) (xs : List A) (y z : A)
      → first_row (order_by before (select p xs)) ≡ some y
      → In z xs
      → p z ≡ true
      → before z y ≡ false
  first_row-Leads p xs y z e i q =
      leader (order_by before (select p xs)) (order_by-Leads (select p xs)) e
        (In-order_by z (select p xs) (In-select p xs z q i))
    where
      leader : (l : List A) → Leads l → first_row l ≡ some y → In z l → before z y ≡ false
      leader [] h k j = absurd j
      leader (x ∷ l) h k j =
          let x-is : x ≡ y = some-injective x y k in
          subst (λ w. before z w ≡ false) x-is (All-at (λ w. before w x ≡ false) (x ∷ l) z h j)
