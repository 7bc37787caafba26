-- ===== src/Numbers/Thousandths.antt =====
-- Thousandths as an instance of the numbers, for examples: a value is a number of thousandths, below
-- zero it stops at zero.
use Prim.Native.Nat.{◌/◌}
use aipro.Prelude.{ℕ, ◌+◌, ◌-◌, ◌*◌, ◌≡◌, ◌⊎◌, true, not, leb, ltb, arith}
use aipro.Numbers.{Number, IsOrdered}

abbrev pub thousandths : Number ℕ
thousandths = record {
  zero = 0;
  one = 1000;
  half = 500;
  add = λ a b. a + b;
  sub = λ a b. a - b;
  mul = λ a b. (a * b) / 1000;
  div = λ a b. (a * 1000) / b;
  le = leb;
  lt = ltb;
  is_finite = λ a. true;
  of_int = λ k. k * 1000;
  hours = λ t. t / 3600000;
}

leb_total : (x y : ℕ) → (leb x y ≡ true) ⊎ (leb y x ≡ true)
leb_total x y = ground arith

leb_trans : (x y z : ℕ) → leb x y ≡ true → leb y z ≡ true → leb x z ≡ true
leb_trans x y z h g = ground arith

ltb-leb : (x y : ℕ) → ltb x y ≡ not (leb y x)
ltb-leb x y = ground arith

leb_refl : (x : ℕ) → leb x x ≡ true
leb_refl x = ground arith

pub thousandths-IsOrdered : IsOrdered thousandths
thousandths-IsOrdered = record {
  le_refl = leb_refl;
  le_trans = leb_trans;
  le_total = leb_total;
  lt-not-le = ltb-leb;
}
