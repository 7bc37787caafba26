-- ===== src/Foreman/Termination.antt =====
-- src/ai_pr_orchestrator/v3/foreman.py: `_run_loop` and its fuel.
use aipro.Prelude.{
  ℕ, zero, suc, ◌+◌, ◌≤◌, ◌<◌, String, Bool, true, false, Option, none, some, List, ◌≡◌, refl, ◌⊎◌,
  inl, inr, not, is_empty, leb, arith,
}
use aipro.Domain.{GitHubIssueRef, Fields}
use aipro.Domain.State.{WorkflowState}
use aipro.Interfaces.{GateDecision}
use aipro.Foreman.Outcome.{WorkItemOutcome}
use aipro.Foreman.Act.{Act, Returns, value, raised, bind, bind_post, if_post}
use aipro.Foreman.Services.{ForemanPolicyLoop}
use aipro.Foreman.Rounds.{RoundReport, ReviewWaves}
use aipro.Foreman.Review.{recovered_review_report}
use aipro.Foreman.Publication.{Summaries}
use aipro.Foreman.Gate.{
  Gated, settled, repair, settle_gate, pending_ci, wait_since, wait, prepare_ci_repair,
  escalated_gate,
}
use aipro.Foreman.Development.{
  CoderTurns, Progress, Coded, failed, coded, Developed, finished, reviewed, review_after,
  round_ended, development_round,
}
use aipro.Foreman.Loop.{
  loop, run_loop, loop_unless, loop_developed, gate_round, loop_gated, after_report,
}
use aipro.Foreman.Advance.{IsBounded, review-IsBounded, review-counts}

abbrev pub IsPresent : Option WorkItemOutcome → Type 0
IsPresent none = ⊥
IsPresent (some o) = Unit {0}

module _ {S : Type 0} (f : ForemanPolicyLoop S) (issue : GitHubIssueRef) where
  -- When the loop goes on behind the gate.
  abbrev GoesOn : ℕ → Bool → Gated → Type 0
  GoesOn rounds gate (settled o) = Unit {0}
  GoesOn rounds gate (repair state findings) =
      (gate ≡ false) × (rounds < f.safety.max_total_iterations)

  module _ (rounds : ℕ) (gate : Bool) where
    escalated-GoesOn :
        (state : WorkflowState) (reason : String) (s : S)
        → Returns (GoesOn rounds gate) (escalated_gate f issue state reason s)
    escalated-GoesOn state reason s = bind _ _ s (λ o s1. value tt)

    pending_ci-GoesOn :
        (state : WorkflowState) (d : GateDecision) (n : ℕ) (s : S)
        → Returns (GoesOn rounds gate) (pending_ci f issue state d rounds n s)
    unfolding pending_ci
    pending_ci-GoesOn state d n s = bind _ _ s (λ now s1. since now _ s1)
      where
        waits :
            (x : WorkflowState) (s2 : S)
            → Returns (GoesOn rounds gate) (wait f issue x d rounds n s2)
        waits x s2 = bind _ _ s2 (λ y s3. value tt)

        since :
            (now : ℕ) (v : Option aipro.Domain.Value) (s1 : S)
            → Returns (GoesOn rounds gate) (wait_since f issue state d rounds n now v s1)
        since now none s1 = bind _ _ s1 (λ x s2. waits x s2)
        since now (some v) s1 = bind _ _ s1 (λ started s2.
            if_post _ _ _ s2 (λ e. escalated-GoesOn state _ s2) (λ e. waits state s2))

    settle_gate-GoesOn :
        (state : WorkflowState) (d : GateDecision) (detail : String) (stagnant n : ℕ) (s : S)
        → Returns (GoesOn rounds gate) (settle_gate f issue state d detail rounds stagnant n gate s)
    unfolding settle_gate prepare_ci_repair
    settle_gate-GoesOn state d detail stagnant n s =
        if_post _ _ _ s (λ e. bind _ _ s (λ x s1. bind _ _ s1 (λ y s2. value tt)))
          (λ e.
            if_post _ _ _ s (λ p. pending_ci-GoesOn state d n s)
              (λ p.
                if_post _ _ _ s (λ g. escalated-GoesOn state _ s)
                  (λ g.
                    if_post _ _ _ s (λ a. escalated-GoesOn state _ s)
                      (λ a.
                        if_post _ _ _ s (λ b. escalated-GoesOn state _ s)
                          (λ b.
                            if_post _ _ _ s (λ k. escalated-GoesOn state _ s)
                              (λ k.
                                bind _ _ s
                                  (λ x s1. bind _ _ s1 (λ now s2. value (g, ground arith)))))))))

  module _ (c : CoderTurns S) (r : ReviewWaves S) (t : Summaries)
      (none_recovered : (state : WorkflowState) (wave report : Fields) (n : ℕ) (s : S)
        → Returns
            (λ out. out.rounds ≡ n + 1)
            (recovered_review_report f r state wave report s)) where
    abbrev Counted : ℕ → Developed → Type 0
    Counted rounds (finished o) = Unit {0}
    Counted rounds (reviewed state report n) =
        (report.rounds ≡ rounds + 1)
        × (is_empty report.remaining ≡ false → report.rounds < f.safety.max_total_iterations)

    both :
        {x : S × aipro.Prelude.Result RoundReport} {P Q : RoundReport → Type 0}
        → Returns P x
        → Returns Q x
        → Returns (λ a. P a × Q a) x
    both (value p) q = both_value p q
      where
        both_value :
            {s : S} {a : RoundReport} {P Q : RoundReport → Type 0}
            → P a
            → Returns Q (s, aipro.Prelude.ok a)
            → Returns (λ b. P b × Q b) (s, aipro.Prelude.ok a)
        both_value p (value q) = value (p, q)
    both raised q = raised

    review_after-Counted :
        (p : Progress) (worktree : String) (turn : Coded) (s : S)
        → Returns (Counted p.review_rounds) (review_after f c r t issue p worktree turn s)
    review_after-Counted p worktree (failed o) s = value tt
    review_after-Counted p worktree (coded state n) s = bind _ _ s (λ x s1.
        bind_post _ _ s1
          (both
            (review-counts f r issue none_recovered x worktree p.review_rounds p.stagnant_rounds
              p.reviewer_triggers s1)
            (review-IsBounded f r issue x worktree _ _ _ s1))
          (λ report s2 h.
            bind _ _ s2
              (λ y s3. bind _ _ s3 (λ z s4. bind _ _ s4 (λ clean s5. ends z report clean h s5)))))
      where
        ends :
            (z : WorkflowState) (report : RoundReport) (clean : Bool)
            → (report.rounds ≡ p.review_rounds + 1) × IsBounded f report
            → (s5 : S)
            → Returns (Counted p.review_rounds) (round_ended f c r t issue z report n clean s5)
        ends z report true h s5 = bind _ _ s5 (λ x s6. value tt)
        ends z report false h s5 = value (h.0, h.1.unfinished)

    development_round-Counted :
        (p : Progress) (worktree : Option String) (s : S)
        → Returns (Counted p.review_rounds) (development_round f c r t issue p worktree s)
    unfolding development_round
    development_round-Counted p none s = raised
    development_round-Counted p (some worktree) s = bind _ _ s (λ n s1.
        bind _ _ s1 (λ skip s2. bind _ _ s2 (λ turn s3. review_after-Counted p worktree turn s3)))

    module _ (worktree : Option String) (branch : String) (gate : Bool) (fuel : ℕ)
        (again : Progress → Act S (Option WorkItemOutcome))
        (ih : (p : Progress) (s : S)
          → f.safety.max_total_iterations < fuel + p.review_rounds
          → p.review_rounds < f.safety.max_total_iterations
          → Returns IsPresent (again p s)) where
      gate_round-IsPresent :
          (at : Bool) (p : Progress) (s : S)
          → (at ≡ true) ⊎ (f.safety.max_total_iterations < fuel + p.review_rounds)
          → Returns IsPresent (gate_round f c r t issue worktree branch at again p s)
      gate_round-IsPresent at p s h = bind _ _ s (λ decided s1.
          bind_post _ _ s1 (settle_gate-GoesOn p.review_rounds at _ _ _ _ _ s1)
            (λ g s2 q. goes_on decided g q s2))
        where
          goes_on :
              (decided : WorkflowState × GateDecision × String) (g : Gated)
              → GoesOn p.review_rounds at g
              → (s2 : S)
              → Returns IsPresent (loop_gated f c r t (record p { state = decided.0 }) again g s2)
          goes_on decided (settled o) q s2 = value tt
          goes_on decided (repair state findings) q s2 = ih _ s2 (ground (arith, h, q)) q.1

      loop_unless-IsPresent :
          (p : Progress) (o : Option WorkItemOutcome) (s : S)
          → f.safety.max_total_iterations < suc fuel + p.review_rounds
          → Returns IsPresent (loop_unless f c r t issue worktree branch gate again p o s)
      loop_unless-IsPresent p (some o) s h = value tt
      loop_unless-IsPresent p none s h = bind _ _ s (λ state s1.
          if_post _ _ _ s1
            (λ e. gate_round-IsPresent true (record p { state = state }) s1 (inl refl))
            (λ e.
              bind_post _ _ s1 (development_round-Counted (record p { state = state }) worktree s1)
                (λ d s2 q. developed (record p { state = state }) d s2 h q)))
        where
          developed :
              (p : Progress) (d : Developed) (s2 : S)
              → f.safety.max_total_iterations < suc fuel + p.review_rounds
              → Counted p.review_rounds d
              → Returns IsPresent (loop_developed f c r t issue worktree branch again p d s2)
          developed p (finished o) s2 h q = value tt
          developed p (reviewed state report n) s2 h q =
              if_post _ _ _ s2
                (λ e.
                  gate_round-IsPresent false (after_report f c r t p state report n) s2
                    (inr (omega (arith, q.0))))
                (λ e. ih _ s2 (omega (arith, q.0)) (q.1 e))

    loop-IsPresent :
        (worktree : Option String) (branch : String) (gate : Bool) (fuel : ℕ) (p : Progress) (s : S)
        → f.safety.max_total_iterations < fuel + p.review_rounds
        → 0 < fuel
        → Returns IsPresent (loop f c r t fuel issue worktree branch gate p s)
    unfolding loop
    loop-IsPresent worktree branch gate zero p s h pos = absurd (omega arith)
    loop-IsPresent worktree branch gate (suc fuel) p s h pos = bind _ _ s (λ o s1.
        loop_unless-IsPresent worktree branch gate fuel
          (loop f c r t fuel issue worktree branch gate)
          (λ q s2 m n. loop-IsPresent worktree branch gate fuel q s2 m (omega (arith, m, n))) p o s1
          h)

    -- If no report of a finished wave is taken over, then the loop of a run does not run out of a
    -- fuel above the limit on iterations: whatever the services answer, it raises or ends with an
    -- outcome. A report that is taken over counts what the saved wave says, of which nothing is known.
    run_loop-IsPresent :
        (fuel : ℕ) (state : WorkflowState) (worktree : Option String) (branch : String)
        (gate : Bool) (s : S)
        → f.safety.max_total_iterations < fuel
        → Returns IsPresent (run_loop f c r t fuel issue state worktree branch gate s)
    unfolding run_loop
    run_loop-IsPresent fuel state worktree branch gate s h = bind _ _ s (λ saved s1.
        bind _ _ s1 (λ stagnant s2.
          bind _ _ s2 (λ tokens s3.
            loop-IsPresent worktree branch gate fuel _ s3 (omega arith) (omega arith))))
