-- ===== src/Foreman/Gate.antt =====
-- src/ai_pr_orchestrator/v3/foreman.py: the CI gate of a run, what follows from its decision, and the
-- deadline of the run. A timestamp is a number of microseconds.
use Prim.Native.String.{◌++◌ as join}
use aipro.Prelude.{
  ℕ, ◌+◌, String, Bool, true, false, Option, none, some, List, [], ◌∷◌, map, not, ◌&&◌, ◌||◌, ltb,
  leb, cond, is_empty, Result, ok, err, foreman_escalation, type_error,
}
use aipro.Prelude.Dict.{lookup, insert, delete}
use aipro.Config.{seconds}
use aipro.Domain.{
  GitHubIssueRef, ci_gating, updating_pr, done, queued, Value, null, stamp, text, num, flag, arr,
  obj, Items, nil, cons, Fields, end, entry, major, opened,
}
use aipro.Domain.Finding.{ReviewerFinding}
use aipro.Domain.State.{WorkflowState}
use aipro.Interfaces.{GateDecision}
use aipro.Foreman.Outcome.{WorkItemOutcome, ended}
use aipro.Foreman.Act.{Act, ◌>>=◌, ◌>>◌, return, lift, escalation, raise_when, if◌then◌else◌}
use aipro.Foreman.Services.{ForemanPolicyLoop}
use aipro.Foreman.Extras.{text_entry}
use aipro.Foreman.Claims.{load, save_fresh, transition, heartbeat, escalate, datetime_now}
use aipro.Foreman.Rounds.{text_items, holds_item, append_item, history}
use aipro.Foreman.Publication.{
  Summaries, publish_snapshot, persist_resources, reconcile_gate_pr, validate_ci_head,
}

-- Either the outcome of the work item, or what the loop goes on with.
pub data Gated : Type 0 where
  settled : WorkItemOutcome → Gated
  repair : WorkflowState → List ReviewerFinding → Gated

-- `asdict(decision)`
unfoldable pub decision_to_dict : GateDecision → String → Fields
decision_to_dict d detail = entry "passed" (flag d.passed) (
    entry "pending_checks" (arr (text_items d.pending_checks))
      (entry "failed_checks" (arr (text_items d.failed_checks)) (entry "detail" (text detail) end)))

-- `timedelta.total_seconds()` above, or not below, a number of seconds
abbrev pub elapsed_above : ℕ → ℕ → ℕ → Bool
elapsed_above now started limit = ltb (started + seconds limit) now

abbrev pub elapsed_reached : ℕ → ℕ → ℕ → Bool
elapsed_reached now started limit = leb (started + seconds limit) now

-- `_parse_timestamp` of an entry that is not None; another value is no ISO text
abbrev pub parse_timestamp : Value → Result ℕ
parse_timestamp (stamp t) = ok t
parse_timestamp v = err type_error

abbrev pub with_gate : WorkItemOutcome → ℕ → ℕ → GateDecision → WorkItemOutcome
with_gate o rounds invocations d = record o {
  review_rounds = rounds;
  coder_invocations = invocations;
  gate = some d;
}

module _ {S : Type 0} (f : ForemanPolicyLoop S) where
  -- A finding for each failed check.
  abbrev pub ci_finding : WorkflowState → String → ℕ → String → ReviewerFinding
  ci_finding state detail now name = record {
    id = join "ci-failed-" name;
    lane = "ci";
    body = join "CI check " (join name (join " failed. " (f.first_1000 detail)));
    severity = major;
    run_id = f.run_id;
    round_id =
        aipro.Prelude.cond (aipro.Domain.truthy state.round_id)
          (aipro.Foreman.Rounds.round_key state.round_id) "ci";
    created_at = now;
    path = none;
    line = none;
    thread_id = none;
    line_end = none;
    confidence = none;
    claim = none;
    evidence = [];
    falsification = none;
    reproduction_command = none;
    suggested_fix = none;
    head_sha = none;
    status = opened;
    status_reason = none;
    conflict_group_id = none;
    sources = [];
    extras = [];
  }

  abbrev pub overdue : WorkflowState → ℕ → Result ℕ → Act S WorkflowState
  overdue state now (err e) = escalation "malformed durable run start time"
  overdue state now (ok started) =
      if elapsed_reached now started f.escalation.max_run_seconds
      then escalation "run wall-clock deadline exhausted"
      else return state

  abbrev pub enforce_from : GitHubIssueRef → WorkflowState → ℕ → Option Value → Act S WorkflowState
  enforce_from issue state now none =
      save_fresh f issue state (insert "run_started_at" (stamp now) state.extras)
  enforce_from issue state now (some v) = elim v [
    | null ↦ save_fresh f issue state (insert "run_started_at" (stamp now) state.extras)
    | other ↦ overdue state now (parse_timestamp other)
  ]

  -- `_enforce_deadline`
  unfoldable pub enforce_deadline : GitHubIssueRef → WorkflowState → Act S WorkflowState
  enforce_deadline issue state =
      datetime_now f >>= λ now. enforce_from issue state now (lookup "run_started_at" state.extras)

  abbrev pub published :
      GitHubIssueRef → WorkflowState → Option String → String → Option String → Act S WorkflowState
  published issue state (some worktree) branch (some head_sha) = do
    publish_snapshot f worktree branch head_sha
    persist_resources f issue state branch worktree
  published issue state worktree branch head_sha =
      escalation "review completed without a recorded snapshot"

  -- `_evaluate_gate`
  unfoldable pub evaluate_gate :
      Summaries
      → GitHubIssueRef
      → WorkflowState
      → Option String
      → String
      → Option String
      → Bool
      → Act S (WorkflowState × GateDecision × String)
  evaluate_gate t issue state worktree branch head_sha resume_at_gate = do
    state ← transition f issue state ci_gating none none
    state ← heartbeat f issue state
    state ←
        (if resume_at_gate then return state else published issue state worktree branch head_sha)
    pr ← reconcile_gate_pr f t issue state branch head_sha
    state ← load f issue state
    decided ← f.gate.evaluate issue pr
    validate_ci_head f pr branch (text_entry (lookup "pr_base_ref" state.extras))
    state ←
        save_fresh f issue state
          (insert "ci_status" (obj (decision_to_dict decided.0 decided.1)) state.extras)
    return (state, decided.0, decided.1)

  -- The transition back to the queue, to wait for the checks.
  abbrev pub wait : GitHubIssueRef → WorkflowState → GateDecision → ℕ → ℕ → Act S Gated
  wait issue state decision rounds invocations = do
    moved ← transition f issue state queued none none
    return (
        settled (with_gate (ended issue ci_gating "CI checks pending") rounds invocations decision))

  abbrev pub escalated_gate : GitHubIssueRef → WorkflowState → String → Act S Gated
  escalated_gate issue state reason = do
    outcome ← escalate f issue state reason
    return (settled outcome)

  abbrev pub wait_since :
      GitHubIssueRef → WorkflowState → GateDecision → ℕ → ℕ → ℕ → Option Value → Act S Gated
  wait_since issue state decision rounds invocations now none = do
    state ← save_fresh f issue state (insert "ci_wait_started_at" (stamp now) state.extras)
    wait issue state decision rounds invocations
  wait_since issue state decision rounds invocations now (some v) = do
    started ← lift (parse_timestamp v)
    if elapsed_above now started f.ci_policy.ci_wait_timeout_seconds
        then escalated_gate issue state "CI checks pending longer than ci_wait_timeout_seconds"
        else wait issue state decision rounds invocations

  abbrev pub present : Option Value → Option Value
  present none = none
  present (some v) = elim v [ null ↦ none | other ↦ some other ]

  -- `_pending_ci`
  unfoldable pub pending_ci : GitHubIssueRef → WorkflowState → GateDecision → ℕ → ℕ → Act S Gated
  pending_ci issue state decision rounds invocations = datetime_now f >>= λ now.
      wait_since issue state decision rounds invocations now
        (present (lookup "ci_wait_started_at" state.extras))

  -- `_record_ci_failure`
  unfoldable pub record_ci_failure :
      GitHubIssueRef → WorkflowState → GateDecision → String → Act S WorkflowState
  record_ci_failure issue state decision detail = do
    let failure = f.failure_hash decision.failed_checks detail
    seen ←
        lift
          (history "malformed durable CI failure history" (lookup "ci_failure_hashes" state.extras))
    raise_when (holds_item failure seen)
        (foreman_escalation "no converging signal: repeated CI failure after remediation")
    save_fresh f issue state (
        delete "ci_wait_started_at"
          (insert "ci_failure_hashes" (arr (append_item seen failure)) state.extras))

  -- `_prepare_ci_repair`
  unfoldable pub prepare_ci_repair :
      GitHubIssueRef → WorkflowState → GateDecision → String → ℕ → ℕ → Act S Gated
  prepare_ci_repair issue state decision detail rounds stagnant =
      if leb f.escalation.stagnation_rounds_threshold stagnant
      then escalated_gate issue state "no converging signal"
      else if leb f.safety.max_total_iterations rounds
      then escalated_gate issue state "CI failing"
      else if is_empty decision.failed_checks
      then escalated_gate issue state "CI gate cannot progress"
      else (record_ci_failure issue state decision detail >>= λ state. datetime_now f >>= λ now.
          return (repair state (map (ci_finding state detail now) decision.failed_checks)))

  abbrev pub merged : GitHubIssueRef → WorkflowState → GateDecision → ℕ → ℕ → Act S Gated
  merged issue state decision rounds invocations = do
    state ← transition f issue state updating_pr none none
    state ← transition f issue state done none (some "ci green")
    return (settled (with_gate (ended issue done "ci green") rounds invocations decision))

  -- `_settle_gate`
  unfoldable pub settle_gate :
      GitHubIssueRef → WorkflowState → GateDecision → String → ℕ → ℕ → ℕ → Bool → Act S Gated
  settle_gate issue state decision detail rounds stagnant invocations resume_at_gate =
      if decision.passed
      then merged issue state decision rounds invocations
      else if not (is_empty decision.pending_checks)
      then pending_ci issue state decision rounds invocations
      else if resume_at_gate
      then escalated_gate issue state "CI-only resume cannot safely dispatch local remediation"
      else prepare_ci_repair issue state decision detail rounds stagnant
