-- ===== src/Domain/Finding.antt =====
-- src/ai_pr_orchestrator/v3/domain.py: reviewer findings, their evidence and provenance, and the
-- dispositions applied to them. A confidence in [0.0, 1.0] is a number of millionths; a timestamp
-- is a number of microseconds.
use aipro.Prelude.{ℕ, String, Option, List}
use aipro.Prelude.Dict.{Dict}
use aipro.Domain.{Severity, FindingStatus, EvidenceKind, DispositionAction, Value}

pub record Evidence : Type 0 where
  pub kind : EvidenceKind
  pub path : Option String
  pub line_start : Option ℕ
  pub line_end : Option ℕ
  pub snippet : Option String
  pub thread_id : Option String
  pub text : Option String
  pub extras : Dict Value

pub record FindingProvenance : Type 0 where
  pub lane : String
  pub finding_id : String
  pub run_id : String
  pub round_id : String
  pub thread_id : Option String
  pub extras : Dict Value

pub record ArchivedFinding : Type 0 where
  pub finding_id : String
  pub lane : String
  pub severity : Severity
  pub status : FindingStatus
  pub status_reason : String
  pub summary : String
  pub sources : List FindingProvenance

pub record ReviewerFinding : Type 0 where
  pub id : String
  pub lane : String
  pub body : String
  pub severity : Severity
  pub run_id : String
  pub round_id : String
  pub created_at : ℕ
  pub path : Option String
  pub line : Option ℕ
  pub thread_id : Option String
  pub line_end : Option ℕ
  pub confidence : Option ℕ
  pub claim : Option String
  pub evidence : List Evidence
  pub falsification : Option String
  pub reproduction_command : Option String
  pub suggested_fix : Option String
  pub head_sha : Option String
  pub status : FindingStatus
  pub status_reason : Option String
  pub conflict_group_id : Option String
  pub sources : List FindingProvenance
  pub extras : Dict Value

pub record FindingDisposition : Type 0 where
  pub finding_id : String
  pub action : DispositionAction
  pub rationale : String
  pub decided_by : String
  pub thread_id : Option String
  pub reply_body : Option String
  pub run_id : Option String
  pub round_id : Option String
  pub response_to_round_id : Option String
