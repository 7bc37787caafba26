-- ===== src/Broker/Dispatch.antt =====
-- What a decision of the broker is: every entry ranked or named with its rejection, and the chosen
-- model one of the ranked.
use aipro.Prelude.{
  ℕ, String, true, false, none, some, List, [], ◌∷◌, ◌||◌, string_eq, is_some, ◌≡◌, ◌↔◌, refl, sym,
  ap, ◌∙◌, subst, arith, Bool-cases, Option-cases, inl, inr, In, ok, ◌>>=◌, ok_inj, some_inj,
  false≢true,
}
use aipro.Numbers.{Number}
use aipro.Catalog.{ModelCatalogEntry, has_known_price, effective_prices}
use aipro.Catalog.Prices.{effective_prices-has_known_price}
use aipro.Broker.Windows.{TaskDemand, PolicyBroker, snapshot_for, windows}
use aipro.Broker.Filters.{Rejection, reject, has_allowance}
use aipro.Broker.Scoring.{
  ScoreBreakdown, score, asserted, blend, blended, breakdown, cash_cost_component,
}
use aipro.Broker.Select.{Ranked, Rejected, with_entry, classify}

pub some-none : {A : Type 0} {a : A} → ¬ (some a ≡ none)
some-none h = cc

rejected_as :
    {ref : String} {why : Rejection} (y : Rejected)
    → ref ≡ y.ref
    → why ≡ y.reason
    → record { ref = ref; reason = why } ≡ y
rejected_as {why} y p q =
    ap (λ z. record { ref = z; reason = why }) p ∙ ap (λ z. record { ref = y.ref; reason = z }) q

ranked_as :
    {F : Type 0} {ref : String} {s : ScoreBreakdown F} (x : Ranked F)
    → ref ≡ x.ref
    → s ≡ x.score
    → record { ref = ref; score = s } ≡ x
ranked_as {s} x p q =
    ap (λ z. record { ref = z; score = s }) p ∙ ap (λ z. record { ref = x.ref; score = z }) q

module _ {F : Type 0} (n : Number F) (b : PolicyBroker F) (d : TaskDemand) (now : ℕ) where
  -- An entry that is not rejected has an allowance or a known price.
  reject-price :
      (e : ModelCatalogEntry F)
      → reject n b e d now ≡ none
      → (has_known_price e now || has_allowance e) ≡ true
  unfolding reject
  reject-price e h = ground (arith, h)

  blended-ok :
      (e : ModelCatalogEntry F)
      → (has_known_price e now || has_allowance e) ≡ true
      → (x : F) × (blended n b.config e now ≡ ok x)
  unfolding blended
  blended-ok e h = elim (Bool-cases (has_allowance e)) [
    | inl t ↦ (n.zero, rw t refl)
    | inr t ↦ elim (Option-cases (effective_prices n.zero e now)) [
      | inl gone ↦
          absurd (
            false≢true (ap is_some (sym gone) ∙ effective_prices-has_known_price n e now ∙ known t))
      | inr (p, at) ↦
          (blend n b.config p, rw t (ap (λ o. asserted n o >>= λ q. ok (blend n b.config q)) at))
    ]
  ]
    where
      known : has_allowance e ≡ false → has_known_price e now ≡ true
      known t = ground (arith, h, t)

  score-ok :
      (e : ModelCatalogEntry F)
      → reject n b e d now ≡ none
      → (s : ScoreBreakdown F) × (score n b e d now ≡ ok s)
  unfolding score cash_cost_component
  score-ok e h =
      let (x, made) = blended-ok e (reject-price e h) in
      (
        _,
        ap
            (λ r.
              (r >>= λ y.
              ok (n.div n.one (n.add n.one (n.div y b.config.reference_price_per_mtok))))
              >>= λ cash. ok (
                  breakdown n b e d now (snapshot_for b e) (windows n b (snapshot_for b e) now)
                    cash))
            made,
      )

  -- An entry that was ranked, and one that was rejected.
  abbrev pub RankedFrom : List (ModelCatalogEntry F) → Ranked F → Type 0
  RankedFrom es x =
      (e : ModelCatalogEntry F) × In e es
      × (reject n b e d now ≡ none)
      × (score n b e d now ≡ ok x.score)
      × (e.ref ≡ x.ref)

  abbrev pub RejectedFrom : List (ModelCatalogEntry F) → Rejected → Type 0
  RejectedFrom es y =
      (e : ModelCatalogEntry F) × In e es × (reject n b e d now ≡ some y.reason) × (e.ref ≡ y.ref)

  abbrev Sided : List (ModelCatalogEntry F) → List (Ranked F) → List Rejected → Type 0
  Sided es ranked rejected =
      ((x : Ranked F) → In x ranked ↔ RankedFrom es x)
      × ((y : Rejected) → In y rejected ↔ RejectedFrom es y)

  rejected_side :
      (e : ModelCatalogEntry F) (es : List (ModelCatalogEntry F)) (ranked : List (Ranked F))
      (rejected : List Rejected) (why : Rejection)
      → reject n b e d now ≡ some why
      → Sided es ranked rejected
      → Sided (e ∷ es) ranked (record { ref = e.ref; reason = why } ∷ rejected)
  rejected_side e es ranked rejected why h (left, right) = (
    λ x. (
      λ m. let (f, k, none_of, scored, same) = (left x).0 m in (f, inr k, none_of, scored, same),
      λ (f, k, none_of, scored, same). elim k [
        | inl q ↦ absurd (both (subst (λ z. reject n b z d now ≡ none) (sym q) none_of))
        | inr l ↦ (left x).1 (f, l, none_of, scored, same)
      ],
    ),
    λ y. (
      λ m. elim m [
        | inl q ↦ (e, inl refl, h ∙ ap (λ z. some z.reason) q, ap (λ z. z.ref) q)
        | inr k ↦ let (f, l, some_of, same) = (right y).0 k in (f, inr l, some_of, same)
      ],
      λ (f, k, some_of, same). elim k [
        | inl q ↦ inl (
            rejected_as y (ap (λ z. z.ref) q ∙ same)
              (some_inj (sym h ∙ ap (λ z. reject n b z d now) q ∙ some_of)))
        | inr l ↦ inr ((right y).1 (f, l, some_of, same))
      ],
    ),
  )
    where
      both : ¬ (reject n b e d now ≡ none)
      both g = some-none (sym h ∙ g)

  ranked_side :
      (e : ModelCatalogEntry F) (es : List (ModelCatalogEntry F)) (ranked : List (Ranked F))
      (rejected : List Rejected) (s : ScoreBreakdown F)
      → reject n b e d now ≡ none
      → score n b e d now ≡ ok s
      → Sided es ranked rejected
      → Sided (e ∷ es) (record { ref = e.ref; score = s } ∷ ranked) rejected
  ranked_side e es ranked rejected s h scored (left, right) = (
    λ x. (
      λ m. elim m [
        | inl q ↦ (e, inl refl, h, scored ∙ ap (λ z. ok z.score) q, ap (λ z. z.ref) q)
        | inr k ↦ let (f, l, none_of, at, same) = (left x).0 k in (f, inr l, none_of, at, same)
      ],
      λ (f, k, none_of, at, same). elim k [
        | inl q ↦ inl (
            ranked_as x (ap (λ z. z.ref) q ∙ same)
              (ok_inj (sym scored ∙ ap (λ z. score n b z d now) q ∙ at)))
        | inr l ↦ inr ((left x).1 (f, l, none_of, at, same))
      ],
    ),
    λ y. (
      λ m. let (f, k, some_of, same) = (right y).0 m in (f, inr k, some_of, same),
      λ (f, k, some_of, same). elim k [
        | inl q ↦ absurd (some-none (sym some_of ∙ ap (λ z. reject n b z d now) (sym q) ∙ h))
        | inr l ↦ (right y).1 (f, l, some_of, same)
      ],
    ),
  )

  pub classify-Sided :
      (es : List (ModelCatalogEntry F))
      → (ranked : List (Ranked F)) × (rejected : List Rejected) × (classify n b d now es
          ≡ ok (ranked, rejected))
        × Sided es ranked rejected
  unfolding classify
  classify-Sided [] = (
    [],
    [],
    refl,
    (
      λ x. (λ m. absurd m, λ (e, m, x1, x2, x3). absurd m),
      λ y. (λ m. absurd m, λ (e, m, x1, x2). absurd m),
    ),
  )
  classify-Sided (e ∷ es) =
      let (ranked, rejected, made, sides) = classify-Sided es in
      elim (Option-cases (reject n b e d now)) [
        | inl h ↦
            let (s, scored) = score-ok e h in
            (
              record { ref = e.ref; score = s } ∷ ranked,
              rejected,
              ap (λ o. with_entry e o (score n b e d now) (classify n b d now es)) h
                  ∙ ap (λ r. with_entry e none r (classify n b d now es)) scored
                  ∙ ap (λ r. with_entry e none (ok s) r) made,
              ranked_side e es ranked rejected s h scored sides,
            )
        | inr (why, h) ↦ (
          ranked,
          record { ref = e.ref; reason = why } ∷ rejected,
          ap (λ o. with_entry e o (score n b e d now) (classify n b d now es)) h
              ∙ ap (λ r. with_entry e (some why) (score n b e d now) r) made,
          rejected_side e es ranked rejected why h sides,
        )
      ]
