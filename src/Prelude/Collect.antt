-- ===== src/Prelude/Collect.antt =====
-- Loops that append the image of each element that passes a test: `for x in xs: if P(x): yield f(x)`.
use mathlib.Core.Path.{◌≡◌, refl, subst, sym}
use mathlib.Core.Logic.{◌⊎◌, inl, inr, ◌↔◌}
use mathlib.Core.List.{List, [], ◌∷◌}
use aipro.Prelude.Lists.{In}

module _ {A B : Type 0} where
  pub record Collects (P : A → Type 0) (f : A → B) (g : List A → List B) : Type 0 where
    pub nil : g [] ≡ []
    pub cons : (x : A) (xs : List A) → P x × (g (x ∷ xs) ≡ f x ∷ g xs) ⊎ ¬ P x × (g (x ∷ xs) ≡ g xs)

  -- What is collected is exactly the image of what passes.
  pub In-Collects :
      (P : A → Type 0) (f : A → B) (g : List A → List B)
      → Collects P f g
      → (b : B) (xs : List A) → In b (g xs) ↔ ((x : A) × In x xs × P x × (f x ≡ b))
  In-Collects P f g c b [] = (λ m. absurd (subst (In b) c.nil m), λ (x, m, p, e). absurd m)
  In-Collects P f g c b (x ∷ xs) =
      let (to, from) = In-Collects P f g c b xs in
      elim (c.cons x xs) [
        | inl (p, e) ↦ (
          λ m. elim (subst (In b) e m) [
            | inl q ↦ (x, inl refl, p, q)
            | inr r ↦ let (y, n, py, q) = to r in (y, inr n, py, q)
          ],
          λ (y, n, py, q). subst (In b) (sym e) (elim n [
            | inl s ↦ inl (subst (λ z. f z ≡ b) (sym s) q)
            | inr r ↦ inr (from (y, r, py, q))
          ]),
        )
        | inr (np, e) ↦ (
          λ m. let (y, n, py, q) = to (subst (In b) e m) in (y, inr n, py, q),
          λ (y, n, py, q).
              subst (In b) (sym e)
                (elim n [ inl s ↦ absurd (np (subst P (sym s) py)) | inr r ↦ from (y, r, py, q) ]),
        )
      ]
