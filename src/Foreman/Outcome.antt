-- ===== src/Foreman/Outcome.antt =====
-- src/ai_pr_orchestrator/v3/foreman.py: what the foreman did to one work item in one pass.
use aipro.Prelude.{ℕ, String, Bool, true, false, Option, none}
use aipro.Domain.{GitHubIssueRef, WorkItemPhase, escalated}
use aipro.Interfaces.{GateDecision}

pub record WorkItemOutcome : Type 0 where
  pub issue : GitHubIssueRef
  pub final_phase : WorkItemPhase
  pub reason : String
  pub review_rounds : ℕ
  pub coder_invocations : ℕ
  pub gate : Option GateDecision
  pub is_escalated : Bool

-- `WorkItemOutcome(issue=..., final_phase=..., reason=...)`
abbrev pub ended : GitHubIssueRef → WorkItemPhase → String → WorkItemOutcome
ended issue phase reason = record {
  issue = issue;
  final_phase = phase;
  reason = reason;
  review_rounds = 0;
  coder_invocations = 0;
  gate = none;
  is_escalated = false;
}

abbrev pub escalated_outcome : GitHubIssueRef → String → WorkItemOutcome
escalated_outcome issue reason = record (ended issue escalated reason) { is_escalated = true }
