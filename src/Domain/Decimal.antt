-- ===== src/Domain/Decimal.antt =====
-- The decimal text of a number determines the number, and holds digits only.
use Prim.Native.Char.{Char, code}
use Prim.Native.String.{◌++◌ as join}
use Prim.Native.Nat.{◌/◌, ◌%◌}
use text.Mathlib.TextLemmas.{nil-append, cons-append, tail-eq_of_cons-eq}
use aipro.Prelude.{
  ℕ, zero, suc, ◌+◌, ◌-◌, ◌*◌, ◌<◌, ◌≡◌, refl, sym, ap, ◌∙◌, String, arith, Bool, true, false, ◌||◌,
  ltb, ◌==◌, nat_eq, Bool-cases, inl, inr, false≢true,
}
use aipro.Domain.Identity.{digit, decimal_from, decimal}

-- The number that the digits of a text stand for, after the digits of `acc`.
unfoldable pub value : ℕ → String → ℕ
value acc String.[] = acc
value acc (String.◌∷◌ c s) = value (acc * 10 + (code c - b'0')) s

value-join : (acc : ℕ) (s t : String) → value acc (join s t) ≡ value (value acc s) t
unfolding value
value-join acc String.[] t = rw nil-append refl
value-join acc (String.◌∷◌ c s) t = rw cons-append (value-join (acc * 10 + (code c - b'0')) s t)

-- A property of the ten digits.
Digit-cases :
    (P : ℕ → Type 0)
    → P 0
    → P 1
    → P 2
    → P 3
    → P 4
    → P 5
    → P 6
    → P 7
    → P 8
    → P 9
    → (d : ℕ) → d < 10
    → P d
Digit-cases P p0 p1 p2 p3 p4 p5 p6 p7 p8 p9 zero h = p0
Digit-cases P p0 p1 p2 p3 p4 p5 p6 p7 p8 p9 (suc zero) h = p1
Digit-cases P p0 p1 p2 p3 p4 p5 p6 p7 p8 p9 (suc (suc zero)) h = p2
Digit-cases P p0 p1 p2 p3 p4 p5 p6 p7 p8 p9 (suc (suc (suc zero))) h = p3
Digit-cases P p0 p1 p2 p3 p4 p5 p6 p7 p8 p9 (suc (suc (suc (suc zero)))) h = p4
Digit-cases P p0 p1 p2 p3 p4 p5 p6 p7 p8 p9 (suc (suc (suc (suc (suc zero))))) h = p5
Digit-cases P p0 p1 p2 p3 p4 p5 p6 p7 p8 p9 (suc (suc (suc (suc (suc (suc zero)))))) h = p6
Digit-cases P p0 p1 p2 p3 p4 p5 p6 p7 p8 p9 (suc (suc (suc (suc (suc (suc (suc zero))))))) h = p7
Digit-cases P p0 p1 p2 p3 p4 p5 p6 p7 p8 p9 (suc (suc (suc (suc (suc (suc (suc (suc zero)))))))) h =
    p8
Digit-cases P p0 p1 p2 p3 p4 p5 p6 p7 p8 p9
      (suc (suc (suc (suc (suc (suc (suc (suc (suc zero))))))))) h =
    p9
Digit-cases P p0 p1 p2 p3 p4 p5 p6 p7 p8 p9
      (suc (suc (suc (suc (suc (suc (suc (suc (suc (suc d)))))))))) h =
    absurd (omega arith)

value-digit : (acc d : ℕ) → d < 10 → value acc (digit d) ≡ acc * 10 + d
unfolding value
value-digit acc =
    Digit-cases (λ d. value acc (digit d) ≡ acc * 10 + d) (omega arith) (omega arith) (omega arith)
      (omega arith) (omega arith) (omega arith) (omega arith) (omega arith) (omega arith)
      (omega arith)

value-decimal_from : (fuel n : ℕ) → n < fuel → value 0 (decimal_from fuel n) ≡ n
unfolding decimal_from
value-decimal_from zero n h = absurd (omega arith)
value-decimal_from (suc fuel) n h = elim (Bool-cases (ltb n 10)) [
  | inl t ↦ rw t (value-digit 0 n (ground arith) ∙ omega arith)
  | inr t ↦ rw t (
      value-join 0 (decimal_from fuel (n / 10)) (digit (n % 10))
      ∙ rw (value-decimal_from fuel (n / 10) (ground arith))
          (value-digit (n / 10) (n % 10) (omega arith) ∙ omega arith))
]

pub value-decimal : (n : ℕ) → value 0 (decimal n) ≡ n
unfolding decimal
value-decimal n = value-decimal_from (suc n) n (omega arith)

-- Whether a character stands in a text.
unfoldable pub occurs : Char → String → Bool
occurs c String.[] = false
occurs c (String.◌∷◌ d s) = (code d == code c) || occurs c s

occurs-join : (c : Char) (s t : String) → occurs c (join s t) ≡ (occurs c s || occurs c t)
unfolding occurs
occurs-join c String.[] t = rw nil-append refl
occurs-join c (String.◌∷◌ d s) t = rw (cons-append, occurs-join c s t) (ground arith)

abbrev colon : Char
colon = ":"

occurs-digit : (d : ℕ) → d < 10 → occurs colon (digit d) ≡ false
unfolding occurs
occurs-digit =
    Digit-cases (λ d. occurs colon (digit d) ≡ false) refl refl refl refl refl refl refl refl refl
      refl

occurs-decimal_from : (fuel n : ℕ) → occurs colon (decimal_from fuel n) ≡ false
unfolding decimal_from occurs
occurs-decimal_from zero n = refl
occurs-decimal_from (suc fuel) n = elim (Bool-cases (ltb n 10)) [
  | inl t ↦ rw t (occurs-digit n (ground arith))
  | inr t ↦ rw t (
      occurs-join colon (decimal_from fuel (n / 10)) (digit (n % 10))
      ∙ rw (occurs-decimal_from fuel (n / 10), occurs-digit (n % 10) (omega arith)) refl)
]

colon-join : (s : String) → join ":" s ≡ String.◌∷◌ colon s
colon-join s = cons-append colon "" s ∙ ap (String.◌∷◌ colon) (nil-append s)

occurs_behind : (y t : String) → occurs colon (join y (join ":" t)) ≡ true
unfolding occurs
occurs_behind y t = occurs-join colon y (join ":" t) ∙ rw (colon-join t) (ground arith)

-- A text without a colon is not what follows a character in a text with one.
no_colon_behind :
    (c d : Char) (s y t : String)
    → occurs colon s ≡ false
    → String.◌∷◌ c s ≡ String.◌∷◌ d (join y (join ":" t))
    → ⊥
no_colon_behind c d s y t hs e =
    false≢true (sym hs ∙ ap (occurs colon) (tail-eq_of_cons-eq e) ∙ occurs_behind y t)

-- The part after the last colon, where it holds none, is determined by the whole text.
after_colon :
    (x y s t : String)
    → occurs colon s ≡ false
    → occurs colon t ≡ false
    → join x (join ":" s) ≡ join y (join ":" t)
    → s ≡ t
unfolding occurs
after_colon String.[] String.[] s t hs ht e =
    tail-eq_of_cons-eq (sym (nil-append _ ∙ colon-join s) ∙ e ∙ nil-append _ ∙ colon-join t)
after_colon String.[] (String.◌∷◌ d y) s t hs ht e =
    absurd
      (no_colon_behind colon d s y t hs (sym (nil-append _ ∙ colon-join s) ∙ e ∙ cons-append d y _))
after_colon (String.◌∷◌ c x) String.[] s t hs ht e = absurd (
    no_colon_behind colon c t x s ht
      (sym (nil-append _ ∙ colon-join t) ∙ sym e ∙ cons-append c x _))
after_colon (String.◌∷◌ c x) (String.◌∷◌ d y) s t hs ht e =
    after_colon x y s t hs ht (tail-eq_of_cons-eq (sym (cons-append c x _) ∙ e ∙ cons-append d y _))

-- Texts that end in a colon and a number have the same number only if they are the same text.
pub numbered_inj :
    (x y : String) (n m : ℕ) → join x (join ":" (decimal n)) ≡ join y (join ":" (decimal m)) → n ≡ m
unfolding decimal
numbered_inj x y n m e = sym (value-decimal n) ∙ ap (value 0) same ∙ value-decimal m
  where
    same : decimal n ≡ decimal m
    same =
        after_colon x y (decimal n) (decimal m) (occurs-decimal_from (suc n) n)
          (occurs-decimal_from (suc m) m) e
