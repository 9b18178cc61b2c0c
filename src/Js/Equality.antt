-- ===== src/Js/Equality.antt =====
-- `===` on the values that the program compares: texts and numbers.
use choice_mind.Prelude.{ℕ, String, ◌≡◌, ◌↔◌, Bool, true, ◌==◌ as text_eq, eq_iff, eqb, eqb_iff}

pub record Eq (A : Type 0) : Type 0 where
  pub beq : A → A → Bool
  pub beq_iff : (a b : A) → (beq a b ≡ true) ↔ (a ≡ b)

infix 50 ◌===◌
abbrev pub ◌===◌ : {A : Type 0} ⦃e : Eq A⦄ → A → A → Bool
◌===◌ ⦃e⦄ = e.beq

instance abbrev pub text_equality : Eq String
text_equality = record { beq = text_eq; beq_iff = eq_iff }

instance abbrev pub number_equality : Eq ℕ
number_equality = record { beq = eqb; beq_iff = eqb_iff }
