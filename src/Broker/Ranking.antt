-- ===== src/Broker/Ranking.antt =====
-- The ranking of the broker is sorted by score and holds the candidates that it was given.
use aipro.Prelude.{
  Bool, true, false, List, [], ◌∷◌, not, ◌≡◌, ◌⊎◌, ◌↔◌, refl, sym, ap, ◌∙◌, Bool-cases, inl, inr,
  In, All, All-mono,
}
use aipro.Numbers.{Number, IsOrdered}
use aipro.Broker.Select.{Ranked, place_ranked, sort}

not-false : (b : Bool) → not b ≡ false → b ≡ true
not-false true h = refl
not-false false h = cc

true-false : ¬ (true ≡ false)
true-false h = cc

module _ {F : Type 0} (n : Number F) where
  -- No candidate scores less than one behind it.
  abbrev pub IsSorted : List (Ranked F) → Type 0
  IsSorted [] = Unit
  IsSorted (x ∷ xs) = All (λ y. n.lt x.score.total y.score.total ≡ false) xs × IsSorted xs

  place_ranked-In_iff :
      (a x : Ranked F) (ys : List (Ranked F)) → In a (place_ranked n x ys) ↔ (x ≡ a) ⊎ In a ys
  unfolding place_ranked
  place_ranked-In_iff a x [] = (λ m. m, λ m. m)
  place_ranked-In_iff a x (y ∷ ys) = elim (Bool-cases (n.lt x.score.total y.score.total)) [
    | inl t ↦ rw t (swapped (place_ranked-In_iff a x ys))
    | inr t ↦ rw t (λ m. m, λ m. m)
  ]
    where
      swapped :
          In a (place_ranked n x ys) ↔ (x ≡ a) ⊎ In a ys
          → (y ≡ a) ⊎ In a (place_ranked n x ys) ↔ (x ≡ a) ⊎ ((y ≡ a) ⊎ In a ys)
      swapped (to, from) = (
        λ m. elim m [
          | inl q ↦ inr (inl q)
          | inr k ↦ elim (to k) [ inl q ↦ inl q | inr l ↦ inr (inr l) ]
        ],
        λ m. elim m [
          | inl q ↦ inr (from (inl q))
          | inr k ↦ elim k [ inl q ↦ inl q | inr l ↦ inr (from (inr l)) ]
        ],
      )

  pub sort-In_iff : (a : Ranked F) (xs : List (Ranked F)) → In a (sort n xs) ↔ In a xs
  unfolding sort
  sort-In_iff a [] = (λ m. m, λ m. m)
  sort-In_iff a (x ∷ xs) =
      let (to, from) = place_ranked-In_iff a x (sort n xs) in
      let (down, up) = sort-In_iff a xs in
      (
        λ m. elim (to m) [ inl q ↦ inl q | inr k ↦ inr (down k) ],
        λ m. elim m [ inl q ↦ from (inl q) | inr k ↦ from (inr (up k)) ],
      )

  place_ranked-All :
      (P : Ranked F → Type 0) (x : Ranked F) (ys : List (Ranked F))
      → P x
      → All P ys
      → All P (place_ranked n x ys)
  unfolding place_ranked
  place_ranked-All P x [] p a = (p, tt)
  place_ranked-All P x (y ∷ ys) p (q, a) = elim (Bool-cases (n.lt x.score.total y.score.total)) [
    | inl t ↦ rw t (q, place_ranked-All P x ys p a)
    | inr t ↦ rw t (p, (q, a))
  ]

  module _ (o : IsOrdered n) where
    not_less : (x y : F) → n.lt x y ≡ false → n.le y x ≡ true
    not_less x y h = not-false (n.le y x) (sym (o.lt-not-le x y) ∙ h)

    lt-asym : (x y : F) → n.lt x y ≡ true → n.lt y x ≡ false
    lt-asym x y h = elim (o.le_total x y) [
      | inl l ↦ o.lt-not-le y x ∙ ap not l
      | inr l ↦ absurd (true-false (sym h ∙ o.lt-not-le x y ∙ ap not l))
    ]

    lt_false_trans : (x y z : F) → n.lt x y ≡ false → n.lt y z ≡ false → n.lt x z ≡ false
    lt_false_trans x y z h g =
        o.lt-not-le x z ∙ ap not (o.le_trans z y x (not_less y z g) (not_less x y h))

    place_ranked-IsSorted :
        (x : Ranked F) (ys : List (Ranked F)) → IsSorted ys → IsSorted (place_ranked n x ys)
    unfolding place_ranked
    place_ranked-IsSorted x [] s = (tt, tt)
    place_ranked-IsSorted x (y ∷ ys) (first, rest) =
        elim (Bool-cases (n.lt x.score.total y.score.total)) [
          | inl t ↦ rw t (
            place_ranked-All (λ z. n.lt y.score.total z.score.total ≡ false) x ys
                (lt-asym x.score.total y.score.total t) first,
            place_ranked-IsSorted x ys rest,
          )
          | inr t ↦ rw t (
            (
              t,
              All-mono (λ z. n.lt y.score.total z.score.total ≡ false)
                  (λ z. n.lt x.score.total z.score.total ≡ false) ys
                  (λ z l. lt_false_trans x.score.total y.score.total z.score.total t l) first,
            ),
            (first, rest),
          )
        ]

    pub sort-IsSorted : (xs : List (Ranked F)) → IsSorted (sort n xs)
    unfolding sort
    sort-IsSorted [] = tt
    sort-IsSorted (x ∷ xs) = place_ranked-IsSorted x (sort n xs) (sort-IsSorted xs)
