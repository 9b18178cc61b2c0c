-- ===== src/Research/Tables/Rows.antt =====
-- What selecting, ordering and updating rows keeps.
use choice_mind.Prelude.{
  String, ◌≡◌, ◌≢◌, refl, sym, inl, inr, Bool, true, false, List, [], ◌∷◌, ◌++◌, map, some, arith,
  any, select, All, Any, Bool-cases, ap, subst, ◌∙◌, All-map,
}
use choice_mind.Research.Tables.{update_where, count_where, insert_row, order_by, first_row}

-- No text stands twice in the list.
abbrev pub Distinct : List String → Type 0
Distinct [] = Unit {0}
Distinct (x ∷ xs) = All (λ y. y ≢ x) xs × Distinct xs

-- The value is in the list.
abbrev pub In : {A : Type 0} → A → List A → Type 0
In x xs = Any (λ y. y ≡ x) xs

module _ {A : Type 0} where
  pub All-both : (P Q : A → Type 0) (xs : List A) → All P xs → All Q xs → All (λ x. P x × Q x) xs
  All-both P Q [] h k = tt
  All-both P Q (x ∷ xs) (h, hs) (k, ks) = ((h, k), All-both P Q xs hs ks)

  pub All-every : (P : A → Type 0) (xs : List A) → ((x : A) → P x) → All P xs
  All-every P [] h = tt
  All-every P (x ∷ xs) h = (h x, All-every P xs h)

  pub All-at : (P : A → Type 0) (xs : List A) (x : A) → All P xs → In x xs → P x
  All-at P [] x h i = absurd i
  All-at P (y ∷ ys) x (h, hs) (inl e) = subst P e h
  All-at P (y ∷ ys) x (h, hs) (inr i) = All-at P ys x hs i

  pub All-members : (xs ys : List A) → ((x : A) → In x xs → In x ys) → All (λ x. In x ys) xs
  All-members [] ys h = tt
  All-members (x ∷ xs) ys h = (h x (inl refl), All-members xs ys (λ z i. h z (inr i)))

  pub All-select :
      (P : A → Type 0) (p : A → Bool) (xs : List A)
      → All P xs
      → All (λ x. P x × (p x ≡ true)) (select p xs)
  All-select P p [] h = tt
  All-select P p (x ∷ xs) (h, hs) = elim (Bool-cases (p x)) [
    | inl e ↦ rw e ((h, e), All-select P p xs hs)
    | inr e ↦ rw e (All-select P p xs hs)
  ]

  pub All-insert_row :
      (P : A → Type 0) (before : A → A → Bool) (x : A) (xs : List A)
      → P x
      → All P xs
      → All P (insert_row before x xs)
  unfolding insert_row
  All-insert_row P before x [] h hs = (h, tt)
  All-insert_row P before x (y ∷ ys) h (k, hs) = elim (Bool-cases (before y x)) [
    | inl e ↦ rw e (k, All-insert_row P before x ys h hs)
    | inr e ↦ rw e (h, (k, hs))
  ]

  pub All-order_by :
      (P : A → Type 0) (before : A → A → Bool) (xs : List A) → All P xs → All P (order_by before xs)
  unfolding order_by
  All-order_by P before [] h = tt
  All-order_by P before (x ∷ xs) (h, hs) =
      All-insert_row P before x (order_by before xs) h (All-order_by P before xs hs)

  pub first_row-All :
      (P : A → Type 0) (xs : List A) (x : A) → All P xs → first_row xs ≡ some x → P x
  first_row-All P [] x h e = cc
  first_row-All P (y ∷ ys) x (h, _) e = subst P (cc) h

  -- The row that a query found is a row of the table, and meets its condition.
  pub first_row-select :
      (p : A → Bool) (xs : List A) (x : A)
      → first_row (select p xs) ≡ some x
      → In x xs × (p x ≡ true)
  first_row-select p xs x e =
      first_row-All _ (select p xs) x
        (All-select (λ y. In y xs) p xs (All-members xs xs (λ y i. i))) e

  pub first_row-order_by-select :
      (before : A → A → Bool) (p : A → Bool) (xs : List A) (x : A)
      → first_row (order_by before (select p xs)) ≡ some x
      → In x xs × (p x ≡ true)
  first_row-order_by-select before p xs x e =
      first_row-All (λ y. In y xs × (p y ≡ true)) (order_by before (select p xs)) x
        (All-order_by _ before (select p xs)
          (All-select (λ y. In y xs) p xs (All-members xs xs (λ y i. i))))
        e

  pub All-update_where :
      (P Q : A → Type 0) (p : A → Bool) (f : A → A) (xs : List A)
      → All (λ x. P x → p x ≡ true → Q (f x)) xs
      → All (λ x. P x → p x ≡ false → Q x) xs
      → All P xs
      → All Q (update_where p f xs)
  All-update_where P Q p f [] yes_ no_ h = tt
  All-update_where P Q p f (x ∷ xs) (y, ys) (n, ns) (h, hs) = elim (Bool-cases (p x)) [
    | inl e ↦ rw e (y h e, All-update_where P Q p f xs ys ns hs)
    | inr e ↦ rw e (n h e, All-update_where P Q p f xs ys ns hs)
  ]

module _ {A : Type 0} (key : A → String) where
  pub map-update_where :
      (p : A → Bool) (f : A → A) (xs : List A)
      → ((x : A) → key (f x) ≡ key x)
      → map key (update_where p f xs) ≡ map key xs
  map-update_where p f [] keeps = refl
  map-update_where p f (x ∷ xs) keeps = ground (arith, keeps x, map-update_where p f xs keeps)

  keys_differ :
      (p : A → Bool) (k : String) (xs : List A)
      → All (λ y. y ≢ k) (map key xs)
      → All (λ y. y ≢ k) (map key (select p xs))
  keys_differ p k [] h = tt
  keys_differ p k (x ∷ xs) (h, hs) = elim (Bool-cases (p x)) [
    | inl e ↦ rw e (h, keys_differ p k xs hs)
    | inr e ↦ rw e (keys_differ p k xs hs)
  ]

  pub Distinct-select :
      (p : A → Bool) (xs : List A) → Distinct (map key xs) → Distinct (map key (select p xs))
  Distinct-select p [] h = tt
  Distinct-select p (x ∷ xs) (h, hs) = elim (Bool-cases (p x)) [
    | inl e ↦ rw e (keys_differ p (key x) xs h, Distinct-select p xs hs)
    | inr e ↦ rw e (Distinct-select p xs hs)
  ]

  differ_append :
      (k : String) (xs : List A) (new : A)
      → All (λ y. y ≢ k) (map key xs)
      → key new ≢ k
      → All (λ y. y ≢ k) (map key (xs ++ new ∷ []))
  differ_append k [] new h n = (n, tt)
  differ_append k (x ∷ xs) new (h, hs) n = (h, differ_append k xs new hs n)

  pub Distinct-append :
      (xs : List A) (new : A)
      → Distinct (map key xs)
      → All (λ x. key x ≢ key new) xs
      → Distinct (map key (xs ++ new ∷ []))
  Distinct-append [] new h n = (tt, tt)
  Distinct-append (x ∷ xs) new (h, hs) (n, ns) =
      (differ_append (key x) xs new h (λ e. n (sym e)), Distinct-append xs new hs ns)

  -- Two rows with one key are one row.
  differ_every :
      (k : String) (xs : List A) → All (λ y. y ≢ k) (map key xs) → All (λ x. key x ≢ k) xs
  differ_every k [] h = tt
  differ_every k (x ∷ xs) (h, hs) = (h, differ_every k xs hs)

  pub All-same_key :
      (xs : List A) (x : A) → Distinct (map key xs) → In x xs → All (λ y. key y ≡ key x → y ≡ x) xs
  All-same_key [] x d i = tt
  All-same_key (y ∷ ys) x (d, ds) (inl e) =
      (λ _. e, All-map (λ z n. λ q. absurd (n (q ∙ sym (ap key e)))) ys (differ_every (key y) ys d))
  All-same_key (y ∷ ys) x (d, ds) (inr i) = (
    λ q. absurd (All-at (λ z. key z ≢ key y) ys x (differ_every (key y) ys d) i (sym q)),
    All-same_key ys x ds i,
  )

pub any-false :
    {A : Type 0} (p : A → Bool) (xs : List A) → any p xs ≡ false → All (λ x. p x ≡ false) xs
any-false p [] h = tt
any-false p (x ∷ xs) h = ground (arith, any-false p xs)

module _ {A : Type 0} (p : A → Bool) where
  -- Nothing is found, counted or updated where no row meets the condition.
  pub any-none : (xs : List A) → All (λ x. p x ≡ false) xs → any p xs ≡ false
  any-none [] h = refl
  any-none (x ∷ xs) (h, hs) = rw h (any-none xs hs)

  pub select-none : (xs : List A) → All (λ x. p x ≡ false) xs → select p xs ≡ []
  select-none [] h = refl
  select-none (x ∷ xs) (h, hs) = rw h (select-none xs hs)

  pub count_where-none : (xs : List A) → All (λ x. p x ≡ false) xs → count_where p xs ≡ 0
  count_where-none [] h = refl
  count_where-none (x ∷ xs) (h, hs) = rw h (count_where-none xs hs)

  pub update_where-none :
      (f : A → A) (xs : List A) → All (λ x. p x ≡ false) xs → update_where p f xs ≡ xs
  update_where-none f [] h = refl
  update_where-none f (x ∷ xs) (h, hs) = rw h (ap (λ l. x ∷ l) (update_where-none f xs hs))

  pub In-update_where :
      (f : A → A) (xs : List A) (x : A) → p x ≡ false → In x xs → In x (update_where p f xs)
  In-update_where f [] x q i = absurd i
  In-update_where f (y ∷ ys) x q (inl e) =
      let q' : p y ≡ false = subst (λ z. p z ≡ false) (sym e) q in rw q' (inl e)
  In-update_where f (y ∷ ys) x q (inr i) = inr (In-update_where f ys x q i)

  pub In-update_where_hit :
      (f : A → A) (xs : List A) (x : A) → p x ≡ true → In x xs → In (f x) (update_where p f xs)
  In-update_where_hit f [] x q i = absurd i
  In-update_where_hit f (y ∷ ys) x q (inl e) =
      let q' : p y ≡ true = subst (λ z. p z ≡ true) (sym e) q in rw q' (inl (ap f e))
  In-update_where_hit f (y ∷ ys) x q (inr i) = inr (In-update_where_hit f ys x q i)

  pub select-finds :
      (xs : List A) (x : A) → p x ≡ true → In x xs → (y : A) × (first_row (select p xs) ≡ some y)
  select-finds [] x q i = absurd i
  select-finds (y ∷ ys) x q (inl e) =
      let q' : p y ≡ true = subst (λ z. p z ≡ true) (sym e) q in (y, rw q' refl)
  select-finds (y ∷ ys) x q (inr i) = elim (Bool-cases (p y)) [
    | inl e ↦ (y, rw e refl)
    | inr e ↦ rw e (select-finds ys x q i)
  ]

  pub any-In : (xs : List A) (x : A) → p x ≡ true → In x xs → any p xs ≡ true
  any-In [] x q i = absurd i
  any-In (y ∷ ys) x q (inl e) =
      let q' : p y ≡ true = subst (λ z. p z ≡ true) (sym e) q in rw q' refl
  any-In (y ∷ ys) x q (inr i) = ground (arith, any-In ys x q i)

  pub In-select : (xs : List A) (x : A) → p x ≡ true → In x xs → In x (select p xs)
  In-select [] x q i = absurd i
  In-select (y ∷ ys) x q (inl e) =
      let q' : p y ≡ true = subst (λ z. p z ≡ true) (sym e) q in rw q' (inl e)
  In-select (y ∷ ys) x q (inr i) = elim (Bool-cases (p y)) [
    | inl e ↦ rw e (inr (In-select ys x q i))
    | inr e ↦ rw e (In-select ys x q i)
  ]
