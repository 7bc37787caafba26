-- ===== src/Findings/Examples.antt =====
-- One finding on a review thread, accepted with a reply, and archived.
use aipro.Prelude.{String, Bool, true, none, some, [], ◌∷◌, ◌≡◌, ◌==◌, string_eq, refl, find, ok}
use aipro.Domain.{opened, minor, accepted, fix}
use aipro.Domain.Finding.{ReviewerFinding, FindingDisposition}
use aipro.Findings.{
  FindingRegistry, new_status, replace_first, with_status, settle_found, apply_disposition,
}
use aipro.Findings.Compact.{compact}
use aipro.Findings.Archive.{Moved, compact-Moved}
use aipro.Findings.Settlement.{Settles, apply_disposition-Settles}

abbrev remark : ReviewerFinding
remark = record {
  id = "guard";
  lane = "breaker-reviewer";
  body = "check the bound";
  severity = minor;
  run_id = "r1";
  round_id = "1";
  created_at = 3;
  path = none;
  line = none;
  thread_id = some "t1";
  line_end = none;
  confidence = none;
  claim = none;
  evidence = [];
  falsification = none;
  reproduction_command = none;
  suggested_fix = none;
  head_sha = none;
  status = opened;
  status_reason = none;
  conflict_group_id = none;
  sources = [];
  extras = [];
}

abbrev fixed : ReviewerFinding
fixed = record remark { status = accepted; status_reason = some "fix: bounded" }

abbrev before_fix : FindingRegistry
before_fix = record {
  findings = remark ∷ [];
  archived = [];
  require_coder_reply_before_resolve = true;
}

abbrev after_fix : FindingRegistry
after_fix = record before_fix { findings = fixed ∷ [] }

abbrev decision : FindingDisposition
decision = record {
  finding_id = "guard";
  action = fix;
  rationale = "bounded";
  decided_by = "developer";
  thread_id = some "t1";
  reply_body = some "done";
  run_id = none;
  round_id = none;
  response_to_round_id = none;
}

abbrev is_blank : String → Bool
is_blank s = s == ""

fix-applied :
    apply_disposition is_blank before_fix "guard" fix "bounded" "developer" none (some "done")
    ≡ ok (after_fix, fixed, decision)
unfolding apply_disposition settle_found with_status new_status replace_first find
fix-applied = refl

apply_disposition-Settles_example :
    (f : ReviewerFinding) × Settles is_blank before_fix after_fix f fixed decision
apply_disposition-Settles_example =
    apply_disposition-Settles is_blank before_fix "guard" "bounded" "developer" none (some "done")
      fix after_fix fixed decision fix-applied

abbrev mixed : FindingRegistry
mixed = record before_fix { findings = fixed ∷ record remark { id = "race" } ∷ [] }

compact-Moved_example :
    (s : FindingRegistry) × (compact is_blank mixed ≡ (s, ok (s.findings, s.archived)))
    × Moved mixed s [] mixed.findings
compact-Moved_example = compact-Moved is_blank mixed (refl, (refl, tt))
