-- ===== src/Domain/Examples.antt =====
-- The theorems on workflow states at small inputs.
use aipro.Prelude.{none, []}
use aipro.Domain.{coding}
use aipro.Domain.State.{WorkflowState}

abbrev coding_state : WorkflowState
coding_state = record {
  work_item_id = "acme/app#7";
  run_id = "r1";
  phase = coding;
  round_id = none;
  updated_at = 1000;
  terminal_reason = none;
  findings = [];
  dispositions = [];
  archived = [];
  extras = [];
}
