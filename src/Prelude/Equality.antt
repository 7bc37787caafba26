-- ===== src/Prelude/Equality.antt =====
-- The operator `==` of the source, at numbers, texts and optional values.
use Prim.Native.Nat.{ℕ}
use Prim.Native.String.{String}
use mathlib.Core.Path.{◌≡◌, refl}
use mathlib.Core.Logic.{◌↔◌, ◌⊎◌, inl, inr}
use mathlib.Core.Bool.{Bool, true, false}
use mathlib.Core.Option.{Option, none, some}
use text.Mathlib.Text.{◌==◌ as str_eq}
use text.Mathlib.TextEquality.{eq_iff}
use aipro.Prelude.Tests.{nat_beq, nat_beq_iff, Bool-cases}

infix 50 ◌==◌
-- An equality test on a type, which decides the equality of its values.
pub record Eq {ℓ} (T : Type ℓ) : Type ℓ where
  pub same : T → T → Bool
  pub same_iff : (x y : T) → (same x y ≡ true) ↔ (x ≡ y)

instance abbrev pub string_eq : Eq String
string_eq = record { same = str_eq; same_iff = eq_iff }

instance abbrev pub nat_eq : Eq ℕ
nat_eq = record { same = nat_beq; same_iff = nat_beq_iff }

abbrev pub ◌==◌ {ℓ} : {T : Type ℓ} ⦃eq : Eq T⦄ → T → T → Bool
◌==◌ ⦃eq⦄ = eq.same

module _ {ℓ} {A : Type ℓ} ⦃e : Eq A⦄ where
  abbrev pub option_same : Option A → Option A → Bool
  option_same none none = true
  option_same (some a) (some b) = a == b
  option_same _ _ = false

  pub option_same_iff : (a b : Option A) → (option_same a b ≡ true) ↔ (a ≡ b)
  option_same_iff none none = (λ _. refl, λ _. refl)
  option_same_iff none (some b) = (λ h. cc, λ h. cc)
  option_same_iff (some a) none = (λ h. cc, λ h. cc)
  option_same_iff (some a) (some b) =
      (λ h. cc ((e.same_iff a b).0 h), λ h. (e.same_iff a b).1 (some_inj h))
    where
      some_inj : some a ≡ some b → a ≡ b
      some_inj h = cc

  instance abbrev pub option_eq : Eq (Option A)
  option_eq = record { same = option_same; same_iff = option_same_iff }

  pub ==_refl : (a : A) → (a == a) ≡ true
  ==_refl a = (e.same_iff a a).1 refl

  -- A split on an equality test, with what it says.
  pub ==-cases : (a b : A) → ((a == b) ≡ true) × (a ≡ b) ⊎ ((a == b) ≡ false) × ¬ (a ≡ b)
  ==-cases a b = elim (Bool-cases (a == b)) [
    | inl p ↦ inl (p, (e.same_iff a b).0 p)
    | inr p ↦ inr (p, λ h. cc ((e.same_iff a b).1 h))
  ]
