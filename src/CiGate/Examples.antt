-- ===== src/CiGate/Examples.antt =====
-- The gate at a head with one passed run, one skipped run and one required check that is missing.
use aipro.Prelude.{
  inr, inl, String, ◌==◌, string_eq, ◌≢◌, ◌∙◌, false≢true, true, false, some, [], ◌∷◌, List, ◌≡◌,
  refl, ok, In, contains, filter, eq_iff, sym,
}
use aipro.Prelude.Dict.{lookup, insert}
use aipro.Config.{CiPolicyConfig}
use aipro.Interfaces.{GateDecision, gate_decision}
use aipro.CiGate.{
  CheckRun, count_report, count_reports, extend_pending, add_sorted, sorted_set, tally,
  missing_required, with_reports, evaluate,
}
use aipro.CiGate.Verdict.{green, evaluate-green}
use aipro.CiGate.Pending.{required_pending}

abbrev policy : CiPolicyConfig
policy = record {
  required_checks = "lint" ∷ "types" ∷ [];
  require_green_ci_before_merge = true;
  ci_wait_timeout_seconds = 1800;
}

abbrev runs : List CheckRun
runs =
    record { name = "lint"; status = "completed"; conclusion = some "success" }
    ∷ record { name = "docs"; status = "completed"; conclusion = some "skipped" }
    ∷ []

abbrev verdict : GateDecision
verdict = record { passed = false; pending_checks = "types" ∷ []; failed_checks = [] }

evaluate-runs : evaluate policy runs [] ≡ ok verdict
unfolding evaluate tally count_reports count_report missing_required extend_pending sorted_set
    add_sorted with_reports gate_decision contains filter lookup insert
evaluate-runs = refl

evaluate-green_example :
    (d : GateDecision) × (evaluate policy runs [] ≡ ok d) × (d.passed ≡ green policy runs [])
evaluate-green_example = evaluate-green policy runs []

required_pending_example : In "types" verdict.pending_checks × (verdict.passed ≡ false)
required_pending_example =
    required_pending policy runs [] "types" verdict evaluate-runs
      (differ "lint" "types" refl, (differ "docs" "types" refl, tt)) tt (inr (inl refl))
  where
    differ : (s t : String) → (s == t) ≡ false → s ≢ t
    differ s t h e = false≢true (sym h ∙ (eq_iff s t).1 e)
