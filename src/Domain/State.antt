-- ===== src/Domain/State.antt =====
-- src/ai_pr_orchestrator/v3/domain.py: `WorkflowState`, its constructor's checks and `transition`.
use aipro.Prelude.{
  ℕ, String, Option, none, some, List, not, ◌&&◌, Result, ok, domain_error, ◌>>◌, raise_if, is_some,
}
use aipro.Prelude.Dict.{Dict}
use aipro.Domain.{WorkItemPhase, Value, is_terminal, truthy}
use aipro.Domain.Finding.{ReviewerFinding, FindingDisposition, ArchivedFinding}

pub record WorkflowState : Type 0 where
  pub work_item_id : String
  pub run_id : String
  pub phase : WorkItemPhase
  pub round_id : Option String
  pub updated_at : ℕ
  pub terminal_reason : Option String
  pub findings : List ReviewerFinding
  pub dispositions : List FindingDisposition
  pub archived : List ArchivedFinding
  pub extras : Dict Value

-- `__post_init__`; the phase is valid by its type.
unfoldable pub post_init : WorkflowState → Result WorkflowState
post_init s = do
  raise_if (is_terminal s.phase && not (truthy s.terminal_reason)) domain_error
  raise_if (not (is_terminal s.phase) && is_some s.terminal_reason) domain_error
  ok s

-- `new if new is not None else old`
abbrev pub or_old : Option String → Option String → Option String
or_old none old = old
or_old (some new) old = some new

-- `now` is what `datetime.now(UTC)` returns.
unfoldable pub transition :
    ℕ → WorkflowState → WorkItemPhase → Option String → Option String → Result WorkflowState
unfolding post_init
transition now s phase round_id terminal_reason = post_init (record s {
  phase = phase;
  round_id = or_old round_id s.round_id;
  updated_at = now;
  terminal_reason = terminal_reason;
})
