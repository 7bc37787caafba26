-- ===== src/Queue/Fit.antt =====
-- What compaction keeps, and when it gives up.
use aipro.Prelude.{
  ℕ, Bool, true, false, List, [], ◌∷◌, ◌++◌, filter, filter-append, any, not, ◌≡◌, ◌↔◌, inl, inr,
  refl, sym, ap, ◌∙◌, arith, All, Bool-cases, ok, err, block_too_large, ok_inj, subst, filter-All,
  false≢true,
}
use aipro.Prelude.Dict.{has}
use mathlib.Core.List.{append-nil, append_assoc}
use aipro.Config.{GitHubQueueConfig}
use aipro.Domain.Finding.{ReviewerFinding}
use aipro.Domain.State.{WorkflowState}
use aipro.Queue.Compaction.{
  reserved, is_threaded, threaded, unthreaded, with_findings, fits, drop_threaded, compacted,
}

-- The state `t` is `s` with some of its oldest threaded findings dropped, and nothing else lost.
pub record Compacts (s t : WorkflowState) : Type 0 where
  pub dropped : List ReviewerFinding
  pub oldest : threaded s ≡ dropped ++ threaded t
  pub unthreaded_kept : unthreaded t ≡ unthreaded s
  pub rest_kept : t ≡ with_findings s t.findings

module _ {A : Type 0} (p : A → Bool) where
  filter_same : (xs : List A) → All (λ x. p x ≡ true) xs → filter p xs ≡ xs
  unfolding filter
  filter_same [] h = refl
  filter_same (x ∷ xs) h = rw (h.0, filter_same xs h.1) refl

  filter-filter-not : (xs : List A) → filter p (filter (λ x. not (p x)) xs) ≡ []
  unfolding filter
  filter-filter-not [] = refl
  filter-filter-not (x ∷ xs) = ground (arith, filter-filter-not xs)

  filter-not_twice :
      (xs : List A)
      → filter (λ x. not (p x)) (filter (λ x. not (p x)) xs) ≡ filter (λ x. not (p x)) xs
  unfolding filter
  filter-not_twice [] = refl
  filter-not_twice (x ∷ xs) = ground (arith, filter-not_twice xs)

  none_not : (xs : List A) → All (λ x. p x ≡ true) xs → filter (λ x. not (p x)) xs ≡ []
  unfolding filter
  none_not [] h = refl
  none_not (x ∷ xs) h = rw h.0 (none_not xs h.1)

-- The threaded findings that are left after the oldest of `fs` were dropped, from the longest.
abbrev pub Suffixes : (List ReviewerFinding → Type 0) → List ReviewerFinding → Type 0
Suffixes P [] = Unit
Suffixes P (f ∷ fs) = P fs × Suffixes P fs

module _ (s : WorkflowState) (left : List ReviewerFinding)
    (h : All (λ f. is_threaded f ≡ true) left) where
  threaded_left : threaded (with_findings s (unthreaded s ++ left)) ≡ left
  threaded_left =
      filter-append is_threaded (unthreaded s) left
      ∙ rw (filter-filter-not is_threaded s.findings) (filter_same is_threaded left h)

  unthreaded_left : unthreaded (with_findings s (unthreaded s ++ left)) ≡ unthreaded s
  unthreaded_left =
      filter-append (λ f. not (is_threaded f)) (unthreaded s) left
      ∙ rw (filter-not_twice is_threaded s.findings, none_not is_threaded left h) (append-nil _)

module _ (cfg : GitHubQueueConfig) (payload_chars : WorkflowState → ℕ) (s : WorkflowState) where
  drop_threaded-Compacts :
      (gone left : List ReviewerFinding) (t : WorkflowState)
      → threaded s ≡ gone ++ left
      → All (λ f. is_threaded f ≡ true) left
      → drop_threaded cfg payload_chars s left ≡ ok t
      → Compacts s t × (fits cfg payload_chars t ≡ true)
  unfolding drop_threaded
  drop_threaded-Compacts gone [] t e a h = cc
  drop_threaded-Compacts gone (f ∷ left) t e a h =
      elim (Bool-cases (fits cfg payload_chars trimmed)) [
        | inl y ↦
            let made : trimmed ≡ t = ok_inj (rw y at h) in
            subst (λ x. Compacts s x × (fits cfg payload_chars x ≡ true)) made (compacts, y)
        | inr n ↦
            drop_threaded-Compacts (gone ++ f ∷ []) left t
              (e ∙ sym (append_assoc gone (f ∷ []) left)) a.1 (rw n at h)
      ]
    where
      trimmed : WorkflowState
      trimmed = with_findings s (unthreaded s ++ left)

      compacts : Compacts s (with_findings s (unthreaded s ++ left))
      compacts = record {
        dropped = gone ++ f ∷ [];
        oldest =
            e
            ∙ sym (append_assoc gone (f ∷ []) left)
            ∙ ap (λ l. (gone ++ f ∷ []) ++ l) (sym (threaded_left s left a.1));
        unthreaded_kept = unthreaded_left s left a.1;
        rest_kept = refl;
      }

  drop_threaded_fails :
      (left : List ReviewerFinding)
      → (drop_threaded cfg payload_chars s left ≡ err block_too_large)
        ↔ Suffixes
            (λ fs. fits cfg payload_chars (with_findings s (unthreaded s ++ fs)) ≡ false)
            left
  unfolding drop_threaded
  drop_threaded_fails [] = (λ h. tt, λ h. refl)
  drop_threaded_fails (f ∷ left) =
      elim (Bool-cases (fits cfg payload_chars (with_findings s (unthreaded s ++ left)))) [
        | inl y ↦ (λ h. absurd (ground (arith, h, y)), λ h. absurd (false≢true (sym h.0 ∙ y)))
        | inr n ↦ (
          λ h. (n, (drop_threaded_fails left).0 (rw n at h)),
          λ h. rw n ((drop_threaded_fails left).1 h.1),
        )
      ]

  -- A state block that compaction returns fits into the bound, and it is the block of the state
  -- with some of the oldest findings that have a review thread dropped: every finding without a
  -- thread is kept in order, the later threaded ones are kept in order, and so is all else.
  pub compacted-Compacts :
      (t : WorkflowState)
      → compacted cfg payload_chars s ≡ ok t
      → Compacts s t × (fits cfg payload_chars t ≡ true)
  unfolding compacted
  compacted-Compacts t h = elim (Bool-cases (any (λ k. has k s.extras) reserved)) [
    | inl c ↦ absurd (ground (arith, h, c))
    | inr c ↦ elim (Bool-cases (fits cfg payload_chars s)) [
      | inl y ↦
          subst (λ x. Compacts s x × (fits cfg payload_chars x ≡ true)) (ok_inj (rw (c, y) at h))
            (record { dropped = []; oldest = refl; unthreaded_kept = refl; rest_kept = refl }, y)
      | inr n ↦
          drop_threaded-Compacts [] (threaded s) t refl (filter-All is_threaded s.findings)
            (rw (c, n) at h)
    ]
  ]

  -- For a state whose extras override no field, compaction gives up exactly when the block does not
  -- fit into the bound, and no block without one or more of the oldest threaded findings fits.
  pub compacted_fails_iff :
      any (λ k. has k s.extras) reserved ≡ false
      → (compacted cfg payload_chars s ≡ err block_too_large)
        ↔ (fits cfg payload_chars s ≡ false)
          × Suffixes
              (λ fs. fits cfg payload_chars (with_findings s (unthreaded s ++ fs)) ≡ false)
              (threaded s)
  unfolding compacted
  compacted_fails_iff c = elim (Bool-cases (fits cfg payload_chars s)) [
    | inl y ↦ (λ h. absurd (ground (arith, h, c, y)), λ h. absurd (false≢true (sym h.0 ∙ y)))
    | inr n ↦ (
      λ h. (n, (drop_threaded_fails (threaded s)).0 (rw (c, n) at h)),
      λ h. rw (c, n) ((drop_threaded_fails (threaded s)).1 h.1),
    )
  ]
