-- ===== src/Interfaces.antt =====
-- src/ai_pr_orchestrator/v3/interfaces.py: the result of a CI gate.
use aipro.Prelude.{
  String, Bool, List, not, ◌&&◌, ◌||◌, is_empty, Result, ok, value_error, ◌>>◌, raise_if,
}

-- Without its `detail` text.
pub record GateDecision : Type 0 where
  pub passed : Bool
  pub pending_checks : List String
  pub failed_checks : List String

-- `GateDecision(...)` with `__post_init__`
unfoldable pub gate_decision : Bool → List String → List String → Result GateDecision
gate_decision passed pending failed = do
  raise_if (passed && (not (is_empty failed) || not (is_empty pending))) value_error
  ok (record { passed = passed; pending_checks = pending; failed_checks = failed })
