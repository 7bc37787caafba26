-- ===== src/Findings/Compact.antt =====
-- src/ai_pr_orchestrator/v3/findings.py: `compact`, which moves settled findings into the archive.
use aipro.Prelude.{
  String, Bool, true, false, none, some, List, [], ◌∷◌, ◌++◌, is_empty, if◌then◌else◌, Result, ok,
  err, domain_error,
}
use aipro.Domain.{FindingStatus, accepted, rejected, archived}
use aipro.Domain.Finding.{ReviewerFinding, ArchivedFinding, FindingProvenance}
use aipro.Findings.{FindingRegistry}

-- `status in ("accepted", "rejected", "archived")`
abbrev pub is_settled : FindingStatus → Bool
is_settled accepted = true
is_settled rejected = true
is_settled archived = true
is_settled _ = false

-- The provenance that a finding without sources gets; its texts passed the finding's own checks.
abbrev pub own_source : ReviewerFinding → FindingProvenance
own_source f = record {
  lane = f.lane;
  finding_id = f.id;
  run_id = f.run_id;
  round_id = f.round_id;
  thread_id = f.thread_id;
  extras = [];
}

module _ (blank : String → Bool) where
  -- The claim, or the body if the claim is missing or blank.
  abbrev pub summary_of : ReviewerFinding → String
  summary_of f = elim f.claim [ none ↦ f.body | some c ↦ if blank c then f.body else c ]

  -- `ArchivedFinding.from_finding`
  unfoldable pub from_finding : ReviewerFinding → Result ArchivedFinding
  from_finding f = elim f.status_reason [
    | none ↦ err domain_error
    | some r ↦ ok (record {
      finding_id = f.id;
      lane = f.lane;
      severity = f.severity;
      status = f.status;
      status_reason = r;
      summary = summary_of f;
      sources = if is_empty f.sources then own_source f ∷ [] else f.sources;
    })
  ]

  -- The loop of `compact`, with the registry that it leaves: the archive grows in place, and the
  -- findings are replaced only at the end.
  unfoldable pub compact_from :
      FindingRegistry
      → List ReviewerFinding
      → List ReviewerFinding
      → FindingRegistry × Result (List ReviewerFinding × List ArchivedFinding)
  compact_from r active [] = (record r { findings = active }, ok (active, r.archived))
  compact_from r active (f ∷ fs) = elim (is_settled f.status) [
    | true ↦ elim (from_finding f) [
      | err e ↦ (r, err e)
      | ok a ↦ compact_from (record r { archived = r.archived ++ a ∷ [] }) active fs
    ]
    | false ↦ compact_from r (active ++ f ∷ []) fs
  ]

  unfoldable pub compact :
      FindingRegistry → FindingRegistry × Result (List ReviewerFinding × List ArchivedFinding)
  compact r = compact_from r [] r.findings
