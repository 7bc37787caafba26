-- ===== src/Telemetry/Ring.antt =====
-- The rings of the health ledger hold the most recent outcomes, and no more.
use aipro.Prelude.{
  ℕ, zero, suc, ◌+◌, ◌-◌, ◌≤◌, ◌<◌, Option, List, [], ◌∷◌, ◌++◌, length, ltb, string_eq, ◌≡◌, refl,
  sym, ap, ◌∙◌, arith, Bool-cases, inl, inr, ◌⊎◌, ltb→lt, ltb_false→le,
}
use aipro.Telemetry.{RequestOutcome, is_success, same_outcome, total, sum_values}
use aipro.Telemetry.Ledger.{Event, count_one, append_bounded, counts_from, trailing, summary}

Nat_cases : (k : ℕ) → (k ≡ 0) ⊎ ((m : ℕ) × (k ≡ suc m))
Nat_cases zero = inl refl
Nat_cases (suc m) = inr (m, refl)

module _ {A : Type 0} where
  unfoldable pub drop : ℕ → List A → List A
  drop zero xs = xs
  drop (suc k) [] = []
  drop (suc k) (x ∷ xs) = drop k xs

  -- The last `w` elements.
  unfoldable pub last_n : ℕ → List A → List A
  last_n w xs = drop (length xs - w) xs

  pub last_n_nil : (w : ℕ) → [] ≡ last_n w []
  unfolding last_n drop
  last_n_nil w = elim (Nat_cases (0 - w)) [ inl e ↦ rw e refl | inr (k, e) ↦ rw e refl ]

  length_append_one : (xs : List A) (e : A) → length (xs ++ e ∷ []) ≡ suc (length xs)
  length_append_one [] e = refl
  length_append_one (x ∷ xs) e = ap suc (length_append_one xs e)

  length-drop : (k : ℕ) (xs : List A) → length (drop k xs) ≡ length xs - k
  unfolding drop
  length-drop zero xs = omega arith
  length-drop (suc k) [] = omega arith
  length-drop (suc k) (x ∷ xs) = length-drop k xs ∙ omega arith

  drop_next : (k : ℕ) (xs : List A) → drop (suc k) xs ≡ drop 1 (drop k xs)
  unfolding drop
  drop_next zero xs = refl
  drop_next (suc k) [] = refl
  drop_next (suc k) (x ∷ xs) = drop_next k xs

  drop-append : (k : ℕ) (xs ys : List A) → k ≤ length xs → drop k (xs ++ ys) ≡ drop k xs ++ ys
  unfolding drop
  drop-append zero xs ys h = refl
  drop-append (suc k) [] ys h = absurd (omega arith)
  drop-append (suc k) (x ∷ xs) ys h = drop-append k xs ys (omega arith)

  pub append_assoc_one : (xs ys : List A) (e : A) → (xs ++ e ∷ []) ++ ys ≡ xs ++ e ∷ ys
  append_assoc_one [] ys e = refl
  append_assoc_one (x ∷ xs) ys e = ap (λ zs. x ∷ zs) (append_assoc_one xs ys e)

  pub append_nil : (xs : List A) → xs ++ [] ≡ xs
  append_nil [] = refl
  append_nil (x ∷ xs) = ap (λ zs. x ∷ zs) (append_nil xs)

  pub length-last_n : (w : ℕ) (xs : List A) → length (last_n w xs) ≤ w
  unfolding last_n
  length-last_n w xs = rw (length-drop (length xs - w) xs) (omega arith)

sum-count_one :
    (o : RequestOutcome) (c : List (RequestOutcome × ℕ))
    → sum_values (count_one o c) ≡ suc (sum_values c)
unfolding sum_values count_one
sum-count_one o [] = refl
sum-count_one o ((p, k) ∷ rest) = elim (Bool-cases (same_outcome p o)) [
  | inl t ↦ rw t (omega arith)
  | inr t ↦ rw t (ap (λ m. k + m) (sum-count_one o rest) ∙ omega arith)
]

module _ {F : Type 0} where
  append_bounded_full :
      (w : ℕ) (es : List (Event F)) (e : Event F)
      → 1 ≤ w
      → w ≤ length es
      → append_bounded w es e ≡ drop 1 es ++ e ∷ []
  unfolding append_bounded drop
  append_bounded_full w [] e one h = absurd (omega arith)
  append_bounded_full w (x ∷ xs) e one h = ground arith

  append_bounded_room :
      (w : ℕ) (es : List (Event F)) (e : Event F)
      → length es < w
      → append_bounded w es e ≡ es ++ e ∷ []
  unfolding append_bounded
  append_bounded_room w [] e h = refl
  append_bounded_room w (x ∷ xs) e h = ground arith

  pub append_bounded-last_n :
      (w : ℕ) (es : List (Event F)) (e : Event F)
      → 1 ≤ w
      → append_bounded w (last_n w es) e ≡ last_n w (es ++ e ∷ [])
  unfolding last_n drop
  append_bounded-last_n w es e one = elim (Bool-cases (ltb (length es) w)) [
    | inl t ↦
        let room : length es < w = ltb→lt (length es) w t in
        ap (λ k. append_bounded w (drop k es) e) (nothing room)
        ∙ append_bounded_room w es e room
        ∙ sym (ap (λ k. drop k (es ++ e ∷ [])) (nothing_more room))
    | inr t ↦
        let full : w ≤ length es = ltb_false→le (length es) w t in
        append_bounded_full w (drop (length es - w) es) e one
          (rw (length-drop (length es - w) es) (omega arith))
        ∙ ap (λ xs. xs ++ e ∷ []) (sym (drop_next (length es - w) es))
        ∙ sym (drop-append (suc (length es - w)) es (e ∷ []) (omega arith))
        ∙ ap (λ k. drop k (es ++ e ∷ [])) (one_more full)
  ]
    where
      nothing : length es < w → length es - w ≡ 0
      nothing room = omega arith

      nothing_more : length es < w → length (es ++ e ∷ []) - w ≡ 0
      nothing_more room = rw (length_append_one es e) (omega arith)

      one_more : w ≤ length es → suc (length es - w) ≡ length (es ++ e ∷ []) - w
      one_more full = rw (length_append_one es e) (omega arith)

  sum-counts_from :
      (c : List (RequestOutcome × ℕ)) (es : List (Event F))
      → sum_values (counts_from c es) ≡ sum_values c + length es
  unfolding counts_from
  sum-counts_from c [] = omega arith
  sum-counts_from c ((o, ms) ∷ es) =
      sum-counts_from (count_one o c) es ∙ rw (sum-count_one o c) (omega arith)

  trailing-le : (k : ℕ) (es : List (Event F)) → trailing k es ≤ k + length es
  unfolding trailing
  trailing-le k [] = omega arith
  trailing-le k ((o, ms) ∷ es) = elim (Bool-cases (is_success o)) [
    | inl t ↦ rw t (let h = trailing-le 0 es in omega arith)
    | inr t ↦ rw t (let h = trailing-le (suc k) es in omega arith)
  ]

  pub total-summary : (s u : Option ℕ) (es : List (Event F)) → total (summary s u es) ≡ length es
  unfolding summary sum_values
  total-summary s u [] = refl
  total-summary s u (e ∷ es) = sum-counts_from [] (e ∷ es) ∙ omega arith

  pub failures_in_a_row :
      (s u : Option ℕ) (es : List (Event F)) → (summary s u es).consecutive_failures ≤ length es
  unfolding summary
  failures_in_a_row s u [] = omega arith
  failures_in_a_row s u (e ∷ es) = let h = trailing-le 0 (e ∷ es) in omega arith
