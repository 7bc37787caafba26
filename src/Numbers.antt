-- ===== src/Numbers.antt =====
-- The floating-point numbers of the program: a type with the operations that the code uses, as a
-- parameter of what computes with them. What is assumed of the order is a separate record.
pub mod Thousandths
use aipro.Prelude.{ℕ, Bool, true, false, List, [], ◌∷◌, ◌≡◌, ◌⊎◌, not, if◌then◌else◌}

pub record Number (F : Type 0) : Type 0 where
  pub zero : F
  pub one : F
  pub half : F
  pub add : F → F → F
  pub sub : F → F → F
  pub mul : F → F → F
  pub div : F → F → F
  -- `a <= b` and `a < b`
  pub le : F → F → Bool
  pub lt : F → F → Bool
  pub is_finite : F → Bool
  -- the value of an int, and of a number of microseconds in hours
  pub of_int : ℕ → F
  pub hours : ℕ → F

-- The order of the numbers that occur: NaN is not among them, since configuration and telemetry
-- refuse it and the operations are applied to finite values.
pub record IsOrdered {F : Type 0} (n : Number F) : Type 0 where
  pub le_refl : (x : F) → n.le x x ≡ true
  pub le_trans : (x y z : F) → n.le x y ≡ true → n.le y z ≡ true → n.le x z ≡ true
  pub le_total : (x y : F) → (n.le x y ≡ true) ⊎ (n.le y x ≡ true)
  pub lt-not-le : (x y : F) → n.lt x y ≡ not (n.le y x)

module _ {F : Type 0} (n : Number F) where
  -- Python's `max(a, b)` and `min(a, b)`: the first argument on a tie
  abbrev pub max : F → F → F
  max a b = if n.lt a b then b else a

  abbrev pub min : F → F → F
  min a b = if n.lt b a then b else a

  -- `min(x, *xs)` and `max(x, *xs)`
  unfoldable pub least : F → List F → F
  least x [] = x
  least x (y ∷ ys) = least (min x y) ys

  unfoldable pub greatest : F → List F → F
  greatest x [] = x
  greatest x (y ∷ ys) = greatest (max x y) ys
