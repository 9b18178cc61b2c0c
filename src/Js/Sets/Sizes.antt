-- ===== src/Js/Sets/Sizes.antt =====
-- The size of a set built from a list.
use choice_mind.Prelude.{
  ◌+◌, ◌≤◌, ◌≡◌, refl, sym, ◌↔◌, inl, inr, true, false, List, [], ◌∷◌, ◌++◌, arith, length,
  length-append, All, Bool-cases,
}
use choice_mind.Js.Equality.{Eq}
use choice_mind.Js.Sets.{In, Distinct, has, has_iff, add, add_all, set_of, In-add}

module _ {A : Type 0} ⦃e : Eq A⦄ where
  length-add-new : (s : List A) (x : A) → has s x ≡ false → length (add s x) ≡ length s + 1
  unfolding add
  length-add-new s x h = rw h (length-append s (x ∷ []))

  length-add-old : (s : List A) (x : A) → has s x ≡ true → length (add s x) ≡ length s
  unfolding add
  length-add-old s x h = rw h refl

  length-add_all : (s xs : List A) → length (add_all s xs) ≤ length s + length xs
  unfolding add_all add
  length-add_all s [] = omega arith
  length-add_all s (x ∷ xs) = elim (Bool-cases (has s x)) [
    | inl old ↦ let h = length-add_all s xs in rw old (omega (arith, h))
    | inr new ↦
        let h = length-add_all (s ++ x ∷ []) xs in
        rw new (omega (arith, h, length-append s (x ∷ [])))
  ]

  later_fresh :
      (s xs : List A) (x : A)
      → All (λ y. ¬ In y (add s x)) xs ↔ (All (λ y. ¬ In y s) xs × (¬ In x xs))
  later_fresh s [] x = (λ h. (tt, λ n. n), λ h. tt)
  later_fresh s (y ∷ xs) x =
      let later = later_fresh s xs x in
      let first = In-add s x y in
      (
        λ (h, t). (
          (λ n. h (first.1 (inl n)), (later.0 t).0),
          elim [ inl k ↦ h (first.1 (inr (sym k))) | inr n ↦ (later.0 t).1 n ],
        ),
        λ ((h, t), n). (
          λ m. elim (first.0 m) [ inl k ↦ h k | inr k ↦ n (inl (sym k)) ],
          later.1 (t, λ k. n (inr k)),
        ),
      )

  length-add_all_iff :
      (s xs : List A)
      → (length (add_all s xs) ≡ length s + length xs) ↔ (All (λ y. ¬ In y s) xs × Distinct xs)
  unfolding add_all
  length-add_all_iff s [] = (λ h. (tt, tt), λ h. omega arith)
  length-add_all_iff s (x ∷ xs) =
      let member = has_iff s x in
      let rest = length-add_all_iff (add s x) xs in
      let later = later_fresh s xs x in
      elim (Bool-cases (has s x)) [
        | inl old ↦ (
          λ h. absurd (omega (arith, h, length-add_all (add s x) xs, length-add-old s x old)),
          λ ((n, _), _). absurd (n (member.0 old)),
        )
        | inr new ↦
            let size = length-add-new s x new in
            (
              λ h.
                  let (fresh, distinct) = rest.0 (omega (arith, h, size)) in
                  let (old, gone) = later.0 fresh in
                  ((λ n. cc (new, member.1 n), old), (gone, distinct)),
              λ ((n, fresh), (gone, distinct)).
                  let h = rest.1 (later.1 (fresh, gone), distinct) in omega (arith, h, size),
            )
      ]

  -- The set has as many elements as the list exactly when the list has each of them once.
  pub length-set_of_iff : (xs : List A) → (length (set_of xs) ≡ length xs) ↔ Distinct xs
  length-set_of_iff xs =
      let (there, back) = length-add_all_iff [] xs in
      (λ h. (there (omega (arith, h))).1, λ d. omega (arith, back (none_in xs, d)))
    where
      none_in : (ys : List A) → All (λ y. ¬ In y []) ys
      none_in [] = tt
      none_in (y ∷ ys) = (λ n. n, none_in ys)
