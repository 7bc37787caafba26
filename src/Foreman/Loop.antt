-- ===== src/Foreman/Loop.antt =====
-- src/ai_pr_orchestrator/v3/foreman.py: `_run_loop`, development rounds and gates until there is an
-- outcome. The loop runs on fuel, and `none` means that the fuel ran out. A state in review has a
-- review round.
use aipro.Prelude.{
  ℕ, zero, suc, ◌-◌, ◌*◌, String, Bool, true, false, Option, none, some, filter, string_eq, nat_eq,
  cond, is_empty, length, Result, ok, err, type_error,
}
use aipro.Prelude.Dict.{lookup}
use aipro.Domain.{GitHubIssueRef, Value, num}
use aipro.Domain.State.{WorkflowState}
use aipro.Findings.{is_open}
use aipro.Foreman.Outcome.{WorkItemOutcome}
use aipro.Foreman.Act.{Act, ◌>>=◌, return, lift, if◌then◌else◌}
use aipro.Foreman.Services.{ForemanPolicyLoop}
use aipro.Foreman.Extras.{text_entry}
use aipro.Foreman.Claims.{cancelled_outcome}
use aipro.Foreman.Rounds.{RoundReport, ReviewWaves, is_reviewing}
use aipro.Foreman.Review.{reviewer_lanes}
use aipro.Foreman.Publication.{Summaries}
use aipro.Foreman.Gate.{Gated, settled, repair, evaluate_gate, settle_gate, enforce_deadline}
use aipro.Foreman.Development.{
  CoderTurns, Progress, Developed, finished, reviewed, development_round, saved_review_round,
  saved_prompt_tokens,
}

module _ {S : Type 0} (f : ForemanPolicyLoop S) where
  module _ (c : CoderTurns S) (r : ReviewWaves S) (t : Summaries) where
    abbrev pub after_report : Progress → WorkflowState → RoundReport → ℕ → Progress
    after_report p state report invocations = record p {
      state = state;
      review_rounds = report.rounds;
      stagnant_rounds = report.stagnant_rounds;
      reviewer_triggers = report.triggers;
      coder_invocations = invocations;
      recover_review = false;
      head_sha = some report.head_sha;
    }

    abbrev pub loop_gated :
        Progress
        → (Progress → Act S (Option WorkItemOutcome))
        → Gated
        → Act S (Option WorkItemOutcome)
    loop_gated p again (settled outcome) = return (some outcome)
    loop_gated p again (repair state findings) =
        again (record p { state = state; fix_findings = findings })

    abbrev pub gate_round :
        GitHubIssueRef
        → Option String
        → String
        → Bool
        → (Progress → Act S (Option WorkItemOutcome))
        → Progress
        → Act S (Option WorkItemOutcome)
    gate_round issue worktree branch resume_at_gate again p = do
      gate ← evaluate_gate f t issue p.state worktree branch p.head_sha resume_at_gate
      gated ←
          settle_gate f issue gate.0 gate.1 gate.2 p.review_rounds p.stagnant_rounds
            p.coder_invocations resume_at_gate
      loop_gated (record p { state = gate.0 }) again gated

    abbrev pub loop_developed :
        GitHubIssueRef
        → Option String
        → String
        → (Progress → Act S (Option WorkItemOutcome))
        → Progress
        → Developed
        → Act S (Option WorkItemOutcome)
    loop_developed issue worktree branch again p (finished outcome) = return (some outcome)
    loop_developed issue worktree branch again p (reviewed state report invocations) =
        let next = after_report p state report invocations in
        if is_empty report.remaining
        then gate_round issue worktree branch false again next
        else again (record next { fix_findings = report.remaining })

    abbrev pub loop_unless :
        GitHubIssueRef
        → Option String
        → String
        → Bool
        → (Progress → Act S (Option WorkItemOutcome))
        → Progress
        → Option WorkItemOutcome
        → Act S (Option WorkItemOutcome)
    loop_unless issue worktree branch resume_at_gate again p (some outcome) = return (some outcome)
    loop_unless issue worktree branch resume_at_gate again p none = do
      state ← enforce_deadline f issue p.state
      let q = record p { state = state }
      if resume_at_gate
          then gate_round issue worktree branch true again q
          else development_round f c r t issue q worktree
            >>= loop_developed issue worktree branch again q

    -- The loop of `_run_loop`
    unfoldable pub loop :
        ℕ
        → GitHubIssueRef
        → Option String
        → String
        → Bool
        → Progress
        → Act S (Option WorkItemOutcome)
    loop zero issue worktree branch resume_at_gate p = return none
    loop (suc fuel) issue worktree branch resume_at_gate p =
        cancelled_outcome f issue
        >>= loop_unless issue worktree branch resume_at_gate
            (loop fuel issue worktree branch resume_at_gate) p

    abbrev pub first_progress : WorkflowState → ℕ → ℕ → Progress
    first_progress state saved stagnant =
        let rounds = cond (is_reviewing state.phase) (saved - 1) saved in
        record {
          state = state;
          review_rounds = rounds;
          stagnant_rounds = stagnant;
          reviewer_triggers = rounds * length (reviewer_lanes f);
          coder_invocations = 0;
          recover_review = is_reviewing state.phase;
          fix_findings = filter (λ g. is_open g.status) state.findings;
          head_sha = text_entry (lookup "head_sha" state.extras);
        }

    -- `state.extras.get("stagnant_rounds", 0)`
    abbrev pub stagnant_entry : Option Value → Result ℕ
    stagnant_entry none = ok 0
    stagnant_entry (some (num n)) = ok n
    stagnant_entry (some v) = err type_error

    -- `_run_loop`
    unfoldable pub run_loop :
        ℕ
        → GitHubIssueRef
        → WorkflowState
        → Option String
        → String
        → Bool
        → Act S (Option WorkItemOutcome)
    unfolding loop
    run_loop fuel issue state worktree branch resume_at_gate = do
      saved ← lift (saved_review_round f state)
      stagnant ← lift (stagnant_entry (lookup "stagnant_rounds" state.extras))
      tokens ← lift (saved_prompt_tokens f state)
      loop fuel issue worktree branch resume_at_gate (first_progress state saved stagnant)
