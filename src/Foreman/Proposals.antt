-- ===== src/Foreman/Proposals.antt =====
-- src/ai_pr_orchestrator/v3/foreman.py: the developer's proposals for open findings, and the histories
-- of dispositions and archived findings that only grow. `same_claim` compares the hashes of two
-- normalized texts.
use aipro.Prelude.{
  String, Bool, true, false, Option, none, some, List, [], ◌∷◌, ◌++◌, find, any, map, not, ◌&&◌,
  ◌||◌, ◌==◌, string_eq, option_eq, is_some, if◌then◌else◌, contains, Result, ok, err,
  foreman_escalation, ◌>>=◌, ◌>>◌, raise_if,
}
use aipro.Prelude.Dict.{Dict}
use aipro.Domain.{DispositionAction, fix, rebut, truthy}
use aipro.Domain.Finding.{ReviewerFinding, FindingDisposition, ArchivedFinding}
use aipro.Domain.State.{WorkflowState}
use aipro.Findings.{is_open, action_name}

abbrev pub is_fix : DispositionAction → Bool
is_fix fix = true
is_fix _ = false

abbrev pub is_rebut : DispositionAction → Bool
is_rebut rebut = true
is_rebut _ = false

-- `==` of two dispositions
abbrev pub same_disposition : FindingDisposition → FindingDisposition → Bool
same_disposition a b =
    a.finding_id == b.finding_id
    && action_name a.action == action_name b.action
    && a.rationale == b.rationale
    && a.decided_by == b.decided_by
    && a.thread_id == b.thread_id
    && a.reply_body == b.reply_body
    && a.run_id == b.run_id
    && a.round_id == b.round_id
    && a.response_to_round_id == b.response_to_round_id

-- `(d.run_id, d.round_id, d.decided_by, d.finding_id) == key`
abbrev pub same_key : FindingDisposition → FindingDisposition → Bool
same_key a b =
    a.run_id == b.run_id
    && (a.round_id == b.round_id && (a.decided_by == b.decided_by && a.finding_id == b.finding_id))

abbrev pub merged_with :
    List FindingDisposition
    → FindingDisposition
    → Option FindingDisposition
    → Result (List FindingDisposition)
merged_with merged decision none = ok (merged ++ decision ∷ [])
merged_with merged decision (some prior) =
    if same_disposition prior decision
    then ok merged
    else err (foreman_escalation "conflicting replay of immutable finding disposition")

-- `_merge_dispositions`
unfoldable pub merge_dispositions :
    List FindingDisposition → List FindingDisposition → Result (List FindingDisposition)
merge_dispositions merged [] = ok merged
merge_dispositions merged (d ∷ ds) =
    merged_with merged d (find (λ p. same_key p d) merged) >>= λ more. merge_dispositions more ds

-- The loop of `_merge_archived`; `seen` holds the ids of `merged`.
unfoldable pub merge_archived : List ArchivedFinding → List ArchivedFinding → List ArchivedFinding
merge_archived merged [] = merged
merge_archived merged (a ∷ rest) =
    merge_archived
      (if contains a.finding_id (map (λ b. b.finding_id) merged) then merged else merged ++ a ∷ [])
      rest

-- `{d.finding_id: d for d in dispositions}.get(id)`: the last one
unfoldable pub latest : String → List FindingDisposition → Option FindingDisposition
latest id [] = none
latest id (d ∷ ds) = elim (latest id ds) [
  | none ↦ if d.finding_id == id then some d else none
  | some later ↦ some later
]

module _ (run_id worker : String) where
  -- `(decision.run_id, decision.decided_by, decision.action)` is the worker's of this run.
  abbrev pub provenance : FindingDisposition → Bool
  provenance d =
      (d.run_id == some run_id)
      && (d.decided_by == worker && (is_fix d.action || is_rebut d.action))

  -- Whether the decision waits for the adjudication of an open finding.
  abbrev pub waiting : ReviewerFinding → FindingDisposition → Bool
  waiting f d = is_open f.status && not (is_some d.response_to_round_id)

  abbrev pub proposed :
      ReviewerFinding
      → Option FindingDisposition
      → Dict FindingDisposition
      → Result (Dict FindingDisposition)
  proposed f none rest = ok rest
  proposed f (some d) rest =
      if waiting f d
      then (raise_if (not (provenance d))
            (foreman_escalation "pending proposal lacks current run/turn provenance")
          >> (raise_if (not (truthy d.round_id))
                (foreman_escalation "pending proposal lacks current run/turn provenance")
              >> ok ((f.id, d) ∷ rest)))
      else ok rest

  -- The loop of `_pending_proposals`, over findings with distinct ids. All of its refusals read alike.
  unfoldable pub pending_from :
      List FindingDisposition → List ReviewerFinding → Result (Dict FindingDisposition)
  pending_from ds [] = ok []
  pending_from ds (f ∷ fs) = pending_from ds fs >>= proposed f (latest f.id ds)

  unfoldable pub pending_proposals : WorkflowState → Result (Dict FindingDisposition)
  pending_proposals state = pending_from state.dispositions state.findings

  abbrev pub resumable : WorkflowState → Dict FindingDisposition → Result Bool
  resumable state [] = ok false
  resumable state (p ∷ ps) =
      raise_if
        (any (λ f. contains f.id (map (λ e. e.0) (p ∷ ps)) && truthy f.thread_id) state.findings)
        (foreman_escalation "pending thread reply requires reconciliation before resume")
      >> ok true

  -- `_resume_proposals`
  unfoldable pub resume_proposals : WorkflowState → Result Bool
  resume_proposals state = pending_proposals state >>= resumable state

module _ (same_claim : String → String → Bool) where
  -- `(d.finding_id, d.response_to_round_id)` of a `fix` that answers a round
  abbrev pub rejects : FindingDisposition → FindingDisposition → Bool
  rejects old d =
      is_fix d.action
      && is_some d.response_to_round_id
      && d.finding_id == old.finding_id
      && d.response_to_round_id == old.round_id

  abbrev pub repeats : List FindingDisposition → FindingDisposition → FindingDisposition → Bool
  repeats history proposal old =
      is_rebut old.action
      && old.finding_id == proposal.finding_id
      && any (rejects old) history
      && same_claim old.rationale proposal.rationale

  -- `_reject_repeated_rebuttals`
  unfoldable pub reject_repeated_rebuttals :
      List FindingDisposition → List FindingDisposition → Result (Unit {0})
  reject_repeated_rebuttals history [] = ok tt
  reject_repeated_rebuttals history (p ∷ ps) =
      raise_if (is_rebut p.action && any (repeats history p) history)
        (foreman_escalation "repeated rejected rebuttal without new evidence")
      >> reject_repeated_rebuttals history ps
