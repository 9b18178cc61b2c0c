-- ===== src/Js/Sets.antt =====
-- `Set`: the values in the order of their insertion, each once.
pub mod Sizes
use choice_mind.Prelude.{
  ◌≡◌, subst, ◌↔◌, ◌⊎◌, inl, inr, Bool, true, List, [], ◌∷◌, ◌++◌, arith, if◌then◌else◌, any, Any,
  Bool-cases,
}
use choice_mind.Js.Equality.{Eq, ◌===◌}

-- `x` is one of the elements.
abbrev pub In : {A : Type 0} → A → List A → Type 0
In x xs = Any (λ y. y ≡ x) xs

-- Each element once.
abbrev pub Distinct : {A : Type 0} → List A → Type 0
Distinct [] = Unit {0}
Distinct (x ∷ xs) = (¬ In x xs) × Distinct xs

module _ {A : Type 0} ⦃e : Eq A⦄ where
  abbrev pub has : List A → A → Bool
  has s x = any (λ y. y === x) s

  pub has_iff : (s : List A) (x : A) → (has s x ≡ true) ↔ In x s
  has_iff [] x = (λ h. cc, λ h. absurd h)
  has_iff (y ∷ s) x = ground (arith, has_iff s x, e.beq_iff y x)

  unfoldable pub add : List A → A → List A
  add s x = if has s x then s else s ++ x ∷ []

  unfoldable pub add_all : List A → List A → List A
  unfolding add
  add_all s [] = s
  add_all s (x ∷ xs) = add_all (add s x) xs

  -- `new Set(xs)`.
  abbrev pub set_of : List A → List A
  set_of xs = add_all [] xs

  In-push : (s : List A) (x y : A) → In y (s ++ x ∷ []) ↔ (In y s ⊎ (x ≡ y))
  In-push [] x y = ground arith
  In-push (z ∷ s) x y = ground (arith, In-push s x y)

  pub In-add : (s : List A) (x y : A) → In y (add s x) ↔ (In y s ⊎ (x ≡ y))
  unfolding add
  In-add s x y = elim (Bool-cases (has s x)) [
    | inl old ↦
        let here = (has_iff s x).0 old in
        rw (old, add) (λ h. inl h, elim [ inl h ↦ h | inr h ↦ subst (λ z. In z s) h here ])
    | inr new ↦ rw (new, add) (In-push s x y)
  ]

  pub In-add_all : (s xs : List A) (y : A) → In y (add_all s xs) ↔ (In y s ⊎ In y xs)
  unfolding add_all
  In-add_all s [] y = (λ h. inl h, elim [ inl h ↦ h | inr h ↦ absurd h ])
  In-add_all s (x ∷ xs) y = ground (arith, In-add_all (add s x) xs y, In-add s x y)

  pub In-set_of : (xs : List A) (y : A) → In y (set_of xs) ↔ In y xs
  In-set_of xs y = ground (arith, In-add_all [] xs y)
