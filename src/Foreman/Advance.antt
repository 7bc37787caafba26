-- ===== src/Foreman/Advance.antt =====
-- src/ai_pr_orchestrator/v3/foreman.py: the counts and the limits of a review round.
use aipro.Prelude.{
  ℕ, ◌+◌, ◌≤◌, ◌<◌, String, Bool, true, false, Option, none, some, ◌≡◌, refl, not, ◌&&◌, ltb, leb,
  is_empty, List, length, arith, and_parts,
}
use aipro.Domain.{GitHubIssueRef, Fields}
use aipro.Domain.State.{WorkflowState}
use aipro.Foreman.Act.{Returns, value, bind, bind_post, guard_post, weaken}
use aipro.Foreman.Services.{ForemanPolicyLoop}
use aipro.Foreman.Rounds.{RoundReport, WaveResult, ReviewWaves, is_reviewing}
use aipro.Foreman.Review.{
  reviewer_lanes, begin_review_round, validate_review_progress, save_review_progress,
  finish_review_wave, recovered_review_report, resume_wave, review_from, review,
}

-- What lets the work go on behind a report.
pub record IsBounded {S : Type 0} (f : ForemanPolicyLoop S) (report : RoundReport) : Type 0 where
  pub converging :
      1 < report.rounds → report.stagnant_rounds < f.escalation.stagnation_rounds_threshold
  pub unfinished : is_empty report.remaining ≡ false → report.rounds < f.safety.max_total_iterations

module _ {S : Type 0} (f : ForemanPolicyLoop S) where
  below : (a b : Bool) (m n : ℕ) → (a && leb m n) ≡ false → a ≡ true → n < m
  below a b m n h e = ground arith

  validate_review_progress-IsBounded :
      (report : RoundReport) (s : S)
      → Returns (λ out. (out ≡ report) × IsBounded f out) (validate_review_progress f report s)
  unfolding validate_review_progress
  validate_review_progress-IsBounded report s = guard_post _ _ _ s (λ e. guard_post _ _ _ s (λ e1.
      value (
        refl,
        record {
          converging = λ h. below _ true _ _ e1 (aipro.Prelude.lt→ltb _ _ h);
          unfinished = λ h. below (not (is_empty report.remaining)) true _ _ e (ground (arith, h));
        },
      )))

  save_review_progress-rounds :
      (issue : GitHubIssueRef) (w : WaveResult) (rounds stagnant triggers : ℕ) (head_sha : String)
      (s : S)
      → Returns
          (λ out. (out.rounds ≡ rounds + 1) × (out.triggers ≡ triggers))
          (save_review_progress f issue w rounds stagnant triggers head_sha s)
  unfolding save_review_progress
  save_review_progress-rounds issue w rounds stagnant triggers head_sha s =
      bind _ _ s (λ waves s1. bind _ _ s1 (λ seen s2. bind _ _ s2 (λ saved s3. value (refl, refl))))

  module _ (r : ReviewWaves S) (issue : GitHubIssueRef) where
    finish_review_wave-Counts :
        (w : WaveResult) (rounds stagnant triggers : ℕ) (head_sha : String) (s : S)
        → Returns
            (λ out. (out.rounds ≡ rounds + 1) × IsBounded f out)
            (finish_review_wave f r issue w rounds stagnant triggers head_sha s)
    unfolding finish_review_wave
    finish_review_wave-Counts w rounds stagnant triggers head_sha s =
        bind_post _ _ s (save_review_progress-rounds issue w rounds stagnant _ head_sha s)
          (λ report s1 h. bind _ _ s1 (λ failures s2. guard_post _ _ _ s2 (λ e.
            weaken
              (λ out q.
                (aipro.Prelude.subst (λ x. x.rounds ≡ rounds + 1) (aipro.Prelude.sym q.0) h.0, q.1))
              (validate_review_progress-IsBounded report s2))))

    recovered_review_report-IsBounded :
        (state : WorkflowState) (wave report : Fields) (s : S)
        → Returns (IsBounded f) (recovered_review_report f r state wave report s)
    unfolding recovered_review_report
    recovered_review_report-IsBounded state wave report s = bind _ _ s (λ u s1.
        bind _ _ s1
          (λ recovered s2. weaken (λ out q. q.1) (validate_review_progress-IsBounded recovered s2)))

    -- The limits under which a fresh round begins.
    begin_review_round-within :
        (state : WorkflowState) (rounds triggers : ℕ) (s : S)
        → Returns
            (λ begun.
              (rounds < f.review_policy.max_review_rounds)
              × (triggers + length (reviewer_lanes f) ≤ f.safety.max_reviewer_triggers_per_run))
            (begin_review_round f issue state rounds triggers s)
    unfolding begin_review_round
    begin_review_round-within state rounds triggers s = guard_post _ _ _ s (λ e.
        guard_post _ _ _ s (λ e1. guard_post _ _ _ s (λ e2.
          bind _ _ s (λ x s1.
            bind _ _ s1 (λ y s2. value (ground arith, aipro.Prelude.ltb_false→le _ _ e2))))))

    resume_wave-IsBounded :
        (state : WorkflowState) (worktree : String) (rounds stagnant triggers : ℕ) (wave : Fields)
        (lanes : List String) (head_sha body : String) (report : Option Fields) (s : S)
        → Returns (IsBounded f) (
            resume_wave f r issue state worktree rounds stagnant triggers wave lanes head_sha body
              report s)
    resume_wave-IsBounded state worktree rounds stagnant triggers wave lanes head_sha body none s =
        bind _ _ s (λ w s1.
          weaken (λ out q. q.1) (finish_review_wave-Counts w rounds stagnant triggers head_sha s1))
    resume_wave-IsBounded state worktree rounds stagnant triggers wave lanes head_sha body
          (some report) s =
        recovered_review_report-IsBounded state wave report s

    fresh :
        (state : WorkflowState) (worktree : String) (rounds stagnant triggers : ℕ) (s : S)
        → Returns
            (λ report.
              (report.rounds ≡ rounds + 1)
              × IsBounded f report
              × (rounds < f.review_policy.max_review_rounds)
              × (triggers + length (reviewer_lanes f) ≤ f.safety.max_reviewer_triggers_per_run))
            (review_from f r issue state worktree rounds stagnant triggers none s)
    fresh state worktree rounds stagnant triggers s =
        bind_post _ _ s (begin_review_round-within state rounds triggers s) (λ begun s1 h.
          bind _ _ s1 (λ body s2. bind _ _ s2 (λ shot s3. bind _ _ s3 (λ w s4.
            weaken (λ out q. (q.0, q.1, h.0, h.1))
              (finish_review_wave-Counts w rounds stagnant triggers shot.1 s4)))))

    review_from-IsBounded :
        (state : WorkflowState) (worktree : String) (rounds stagnant triggers : ℕ)
        (wave : Option Fields) (s : S)
        → Returns
            (IsBounded f)
            (review_from f r issue state worktree rounds stagnant triggers wave s)
    review_from-IsBounded state worktree rounds stagnant triggers none s =
        weaken (λ out q. q.1) (fresh state worktree rounds stagnant triggers s)
    review_from-IsBounded state worktree rounds stagnant triggers (some wave) s =
        bind _ _ s (λ lanes s1. bind _ _ s1 (λ head s2. bind _ _ s2 (λ body s3. bind _ _ s3 (λ u s4.
          bind _ _ s4 (λ report s5.
            resume_wave-IsBounded state worktree rounds stagnant triggers wave _ head body report
              s5)))))

    -- A review that returns, fresh or recovered, leaves findings open only below the limit on
    -- iterations, and from the second round on only with fewer stagnant rounds than the threshold.
    pub review-IsBounded :
        (state : WorkflowState) (worktree : String) (rounds stagnant triggers : ℕ) (s : S)
        → Returns (IsBounded f) (review f r issue state worktree rounds stagnant triggers s)
    unfolding review
    review-IsBounded state worktree rounds stagnant triggers s = bind _ _ s (λ waves s1.
        bind _ _ s1
          (λ wave s2. review_from-IsBounded state worktree rounds stagnant triggers wave s2))

    -- A review of a state that is not in review yet, if it returns, counts one round more than
    -- before, and began below the cap on rounds and with triggers left for all its lanes.
    pub review-fresh :
        (state : WorkflowState) (worktree : String) (rounds stagnant triggers : ℕ) (s : S)
        → is_reviewing state.phase ≡ false
        → Returns
            (λ report.
              (report.rounds ≡ rounds + 1)
              × (rounds < f.review_policy.max_review_rounds)
              × (triggers + length (reviewer_lanes f) ≤ f.safety.max_reviewer_triggers_per_run))
            (review f r issue state worktree rounds stagnant triggers s)
    unfolding review
    review-fresh state worktree rounds stagnant triggers s e = bind _ _ s (λ waves s1. rw e (
        bind_post {Q = λ w. w ≡ none} _ _ s1 (value refl) (λ wave s2 q.
          rw q (
            weaken (λ out p. (p.0, p.2, p.3)) (fresh state worktree rounds stagnant triggers s2)))))

    -- If no report of a finished wave is taken over, every review counts one round more.
    pub review-counts :
        ((state : WorkflowState) (wave report : Fields) (n : ℕ) (s : S)
          → Returns (λ out. out.rounds ≡ n + 1) (recovered_review_report f r state wave report s))
        → (state : WorkflowState) (worktree : String) (rounds stagnant triggers : ℕ) (s : S)
        → Returns
            (λ out. out.rounds ≡ rounds + 1)
            (review f r issue state worktree rounds stagnant triggers s)
    unfolding review
    review-counts none_recovered state worktree rounds stagnant triggers s =
        bind _ _ s (λ waves s1. bind _ _ s1 (λ wave s2. from wave s2))
      where
        resumed :
            (wave : Fields) (lanes : List String) (head body : String) (report : Option Fields)
            (s3 : S)
            → Returns
                (λ out. out.rounds ≡ rounds + 1)
                (resume_wave f r issue state worktree rounds stagnant triggers wave lanes head body
                  report s3)
        resumed wave lanes head body none s3 = bind _ _ s3 (λ w s4.
            weaken (λ out q. q.0) (finish_review_wave-Counts w rounds stagnant triggers head s4))
        resumed wave lanes head body (some report) s3 = none_recovered state wave report rounds s3

        from :
            (wave : Option Fields) (s2 : S)
            → Returns
                (λ out. out.rounds ≡ rounds + 1)
                (review_from f r issue state worktree rounds stagnant triggers wave s2)
        from none s2 = weaken (λ out q. q.0) (fresh state worktree rounds stagnant triggers s2)
        from (some wave) s2 = bind _ _ s2 (λ lanes s3. bind _ _ s3 (λ head s4.
            bind _ _ s4 (λ body s5.
              bind _ _ s5 (λ u s6. bind _ _ s6 (λ report s7. resumed wave _ head body report s7)))))
