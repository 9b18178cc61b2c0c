-- ===== src/Js/Maps/Lookup.antt =====
-- What the maps that the program builds hold: the entry with a key, and the entries of a group.
use choice_mind.Prelude.{
  String, ◌≡◌, refl, sym, subst, ◌∙◌, ap, ◌↔◌, inl, inr, Bool, true, false, List, [], ◌∷◌, ◌++◌,
  map, Option, none, some, arith, Any, All, Bool-cases, if◌then◌else◌, ◌==◌, eq_iff, find, select,
}
use mathlib.Core.List.{append_assoc, append-nil}
use choice_mind.Js.Sets.{In, Distinct}
use choice_mind.Js.Maps.{get, set, get-set, index_by, group_by, or_empty}

abbrev or_else : {A : Type 0} → Option A → Option A → Option A
or_else none o = o
or_else (some a) o = some a

module _ {V : Type 0} (key : V → String) where
  find_absent :
      (xs : List V) (k : String) → (¬ In k (map key xs)) → find (λ x. key x == k) xs ≡ none
  find_absent [] k n = refl
  find_absent (x ∷ xs) k n = ground (arith, eq_iff (key x) k, find_absent xs k (λ m. n (inr m)))

  get-index_by_from :
      (m : List (String × V)) (xs : List V) (k : String)
      → Distinct (map key xs)
      → get (index_by key m xs) k ≡ or_else (find (λ x. key x == k) xs) (get m k)
  unfolding index_by
  get-index_by_from m [] k d = refl
  get-index_by_from m (x ∷ xs) k (fresh, d) =
      let rest = get-index_by_from (set m (key x) x) xs k d in
      let step = get-set m (key x) k x in
      elim (Bool-cases (key x == k)) [
        | inl same ↦
            let equal = (eq_iff (key x) k).0 same in
            let gone = find_absent xs k (subst (λ j. ¬ In j (map key xs)) equal fresh) in
            ground (arith, rest, step, gone)
        | inr other ↦ ground (arith, rest, step)
      ]

  -- With distinct keys the map finds the entry that the list has.
  pub get-index_by :
      (xs : List V) (k : String)
      → Distinct (map key xs)
      → get (index_by key [] xs) k ≡ find (λ x. key x == k) xs
  unfolding get
  get-index_by xs k d = get-index_by_from [] xs k d ∙ or_else_none (find (λ x. key x == k) xs)
    where
      or_else_none : (o : Option V) → or_else o none ≡ o
      or_else_none none = refl
      or_else_none (some a) = refl

  or_empty_here :
      (m : List (String × List V)) (x : V) (k : String)
      → (key x == k) ≡ true
      → get (set m (key x) (or_empty (get m (key x)) ++ x ∷ [])) k
        ≡ (if key x == k then some (or_empty (get m (key x)) ++ x ∷ []) else get m k)
      → or_empty (get (set m (key x) (or_empty (get m (key x)) ++ x ∷ [])) k)
        ≡ or_empty (get m k) ++ x ∷ []
  or_empty_here m x k same step =
      rw (step, same) (ap (λ j. or_empty (get m j) ++ x ∷ []) ((eq_iff (key x) k).0 same))

  select_here :
      (x : V) (xs : List V) (k : String)
      → (key x == k) ≡ true
      → select (λ y. key y == k) (x ∷ xs) ≡ x ∷ select (λ y. key y == k) xs
  select_here x xs k same = rw same refl

  group_from :
      (m : List (String × List V)) (xs : List V) (k : String)
      → or_empty (get (group_by key m xs) k) ≡ or_empty (get m k) ++ select (λ x. key x == k) xs
  unfolding group_by
  group_from m [] k = sym (append-nil _)
  group_from m (x ∷ xs) k =
      let group = or_empty (get m (key x)) ++ x ∷ [] in
      let rest = group_from (set m (key x) group) xs k in
      let step = get-set m (key x) k group in
      elim (Bool-cases (key x == k)) [
        | inl same ↦
            let grown = or_empty_here m x k same step in
            rest
            ∙ (ap (λ l. l ++ select (λ y. key y == k) xs) grown
                ∙ (append_assoc (or_empty (get m k)) (x ∷ []) (select (λ y. key y == k) xs)
                    ∙ ap (λ l. or_empty (get m k) ++ l) (sym (select_here x xs k same))))
        | inr other ↦ ground (arith, rest, step)
      ]

  -- A group holds the entries with its key, in their order.
  pub or_empty-get-group_by :
      (xs : List V) (k : String)
      → or_empty (get (group_by key [] xs) k) ≡ select (λ x. key x == k) xs
  unfolding get
  or_empty-get-group_by xs k = group_from [] xs k

module _ {V : Type 0} where
  -- What `find` finds is in the list and passes the test.
  pub find-some :
      (p : V → Bool) (xs : List V) (x : V) → find p xs ≡ some x → (p x ≡ true) × Any (λ y. y ≡ x) xs
  find-some p [] x h = cc
  find-some p (y ∷ xs) x h = elim (Bool-cases (p y)) [
    | inl pass ↦ ground arith
    | inr miss ↦ let (q, m) = find-some p xs x (ground arith) in (q, inr m)
  ]

  pub find-none : (p : V → Bool) (xs : List V) → find p xs ≡ none → All (λ y. p y ≡ false) xs
  find-none p [] h = tt
  find-none p (y ∷ xs) h = ground (arith, find-none p xs)

  pub Any-select :
      (p : V → Bool) (P : V → Type 0) (xs : List V)
      → Any P (select p xs) ↔ Any (λ x. (p x ≡ true) × P x) xs
  Any-select p P [] = (λ h. h, λ h. h)
  Any-select p P (x ∷ xs) = ground (arith, Any-select p P xs)

  In-map :
      (key : V → String) (P : V → Type 0) (xs : List V) (k : String)
      → Any (λ x. (key x ≡ k) × P x) xs
      → In k (map key xs)
  In-map key P [] k h = h
  In-map key P (x ∷ xs) k (inl (e, _)) = inl e
  In-map key P (x ∷ xs) k (inr h) = inr (In-map key P xs k h)

  -- With distinct keys, `find` by a key finds the entry that there is.
  pub find-Distinct :
      (key : V → String) (P : V → Type 0) (xs : List V) (k : String)
      → Distinct (map key xs)
      → ((x : V) × ((find (λ y. key y == k) xs ≡ some x) × P x)) ↔ Any (λ x. (key x ≡ k) × P x) xs
  find-Distinct key P [] k d = (λ (x, (e, h)). cc e, λ h. absurd h)
  find-Distinct key P (x ∷ xs) k (fresh, d) =
      let rest = find-Distinct key P xs k d in
      elim (Bool-cases (key x == k)) [
        | inl same ↦
            let equal = (eq_iff (key x) k).0 same in
            rw same (
              λ (y, (e, h)). inl (equal, subst P (cc e) h),
              elim [
                | inl (_, h) ↦ (x, (refl, h))
                | inr m ↦
                    absurd
                      (fresh (subst (λ j. In j (map key xs)) (sym equal) (In-map key P xs k m)))
              ],
            )
        | inr other ↦ rw other (
          λ h. inr (rest.0 h),
          elim [ inl (e, _) ↦ cc ((eq_iff (key x) k).1 e) | inr m ↦ rest.1 m ],
        )
      ]

  pub All-select :
      (p : V → Bool) (P : V → Type 0) (xs : List V)
      → All P (select p xs) ↔ All (λ x. p x ≡ true → P x) xs
  All-select p P [] = (λ h. tt, λ h. tt)
  All-select p P (x ∷ xs) =
      let rest = All-select p P xs in
      elim (Bool-cases (p x)) [
        | inl pass ↦ rw pass (λ (h, t). (λ k. h, rest.0 t), λ (h, t). (h refl, rest.1 t))
        | inr miss ↦ rw miss (λ t. (λ k. cc k, rest.0 t), λ (_, t). rest.1 t)
      ]

  pub nonempty-Any : (P : V → Type 0) (xs : List V) → (xs ≡ [] → ⊥) → All P xs → Any P xs
  nonempty-Any P [] n h = absurd (n refl)
  nonempty-Any P (x ∷ xs) n (h, t) = inl h
