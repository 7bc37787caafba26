-- ===== src/Reconcile/Context.antt =====
-- src/ai_pr_orchestrator/v3/reconcile.py: the decision context of one work item.
use aipro.Prelude.{
  ℕ, String, Bool, false, Option, none, some, List, [], ◌∷◌, filter, any, all, not, ◌&&◌, ◌==◌,
  string_eq, option_eq, if◌then◌else◌, is_empty, is_some, ltb, leb, length, contains, map, ok, err,
}
use aipro.Domain.{
  WorkItemPhase, queued, claiming, planning, coding, reviewing, ci_gating, updating_pr, escalated,
  done, failed, cancelled,
}
use aipro.Domain as Dom
use aipro.Domain.State.{WorkflowState}
use aipro.Interfaces.{GateDecision}
use aipro.Lanes.{LaneRegistry, is_worker, is_reviewer}
use aipro.Lanes as Registry
use aipro.Queue.Claim.{Claim, is_stale, claim_from_state}
use aipro.Reconcile.{
  SessionObservation, WorktreeObservation, ReconciliationInputs, head_moved, sessions_for_work_item,
  pull_request_for_branch,
}
use aipro.Reconcile.Table.{
  Key, lease_present, work_item_in_terminal, has_claim, claim_has_branch, claim_has_pr,
  worktree_exists_for_branch, has_active_or_pending_session, has_terminal_coding_session,
  has_terminal_review_session, commit_recorded, coder_succeeded, branch_pushed, pr_head_moved,
  findings_published_to_pr, all_findings_dispositioned, ci_recorded, final_label_transitioned,
  two_or_more_live_sessions_same_lane,
}

abbrev pub terminal_state : Option WorkflowState → Bool
terminal_state none = false
terminal_state (some s) = Dom.is_terminal s.phase

-- Any exception of `claim_from_state` means that no lease is alive.
unfoldable pub lease_alive : Option WorkflowState → ℕ → Bool
lease_alive none now = false
lease_alive (some s) now = elim (claim_from_state s) [ err e ↦ false | ok c ↦ not (is_stale c now) ]

-- The place of a phase in the `ordering` of `_phase_at_least`; "cancelled" is not in it.
abbrev pub place : WorkItemPhase → Option ℕ
place queued = some 0
place claiming = some 1
place planning = some 2
place coding = some 3
place reviewing = some 4
place ci_gating = some 5
place updating_pr = some 6
place done = some 7
place failed = some 8
place escalated = some 9
place cancelled = none

-- Called with "done" alone.
abbrev pub reaches : Option ℕ → Option ℕ → Bool
reaches (some p) (some t) = leb t p
reaches _ _ = false

abbrev pub phase_at_least : Option WorkflowState → WorkItemPhase → Bool
phase_at_least none target = false
phase_at_least (some s) target = reaches (place s.phase) (place target)

unfoldable pub findings_published : Option WorkflowState → Bool
findings_published none = false
findings_published (some s) = any (λ f. is_some f.thread_id) s.findings

unfoldable pub findings_dispositioned : Option WorkflowState → Bool
findings_dispositioned none = false
findings_dispositioned (some s) =
    if is_empty s.findings
    then false
    else all (λ f. contains f.id (map (λ d. d.finding_id) s.dispositions)) s.findings

unfoldable pub ci_status_recorded : Option GateDecision → Bool
ci_status_recorded none = false
ci_status_recorded (some g) = is_empty g.pending_checks

-- `len({s.lane for s in sessions}) == 1`: there are sessions, and all are in one lane.
unfoldable pub one_lane : List SessionObservation → Bool
one_lane [] = false
one_lane (s ∷ ss) = all (λ t. t.lane == s.lane) ss

abbrev pub branch_of : Option Claim → Option String
branch_of none = none
branch_of (some c) = c.branch

abbrev pub pr_of : Option Claim → Option ℕ
pr_of none = none
pr_of (some c) = c.pr_number

-- `w.branch == (claim.branch if claim else None)`
unfoldable pub worktrees_for_work_item : ReconciliationInputs → List WorktreeObservation
worktrees_for_work_item i = filter (λ w. some w.branch == branch_of i.observation.claim) i.worktrees

module _ (lanes : LaneRegistry) where
  unfoldable pub is_coding_lane : String → Bool
  is_coding_lane lane = elim (Registry.get lanes lane) [ err e ↦ false | ok l ↦ is_worker l.role ]

  unfoldable pub is_reviewer_lane : String → Bool
  is_reviewer_lane lane = elim (Registry.get lanes lane) [
    | err e ↦ false
    | ok l ↦ is_reviewer l.role
  ]

  unfoldable pub coding_sessions : ReconciliationInputs → List SessionObservation
  coding_sessions i = filter (λ s. is_coding_lane s.lane) (sessions_for_work_item i)

  unfoldable pub review_sessions : ReconciliationInputs → List SessionObservation
  review_sessions i = filter (λ s. is_reviewer_lane s.lane) (sessions_for_work_item i)

-- `claim is not None and claim.branch is not None and worktrees and worktrees[0].last_commit_at >
-- claim.claimed_at`
unfoldable pub commit_is_newer : Option Claim → List WorktreeObservation → Bool
commit_is_newer (some c) (w ∷ ws) = is_some c.branch && ltb c.claimed_at w.last_commit_at
commit_is_newer _ _ = false

unfoldable pub pushed_after_claim : Option Claim → List WorktreeObservation → Bool
pushed_after_claim (some c) (w ∷ ws) = elim w.last_push_at [
  | none ↦ false
  | some t ↦ ltb c.claimed_at t
]
pushed_after_claim _ _ = false

unfoldable pub pr_moved : ReconciliationInputs → Bool
pr_moved i = elim (branch_of i.observation.claim) [
  | none ↦ false
  | some branch ↦ elim (pull_request_for_branch i branch) [ none ↦ false | some pr ↦ head_moved pr ]
]

-- `_build_decision_context`; the entries "branch" and "pr_number", which no row reads, are
-- `branch_of` and `pr_of` of the claim.
unfoldable pub decision_context : LaneRegistry → ReconciliationInputs → Key → Bool
decision_context lanes i lease_present = is_some i.observation.state
decision_context lanes i Key.lease_alive = lease_alive i.observation.state i.now.instant
decision_context lanes i work_item_in_terminal = terminal_state i.observation.state
decision_context lanes i has_claim = is_some i.observation.claim
decision_context lanes i claim_has_branch = is_some (branch_of i.observation.claim)
decision_context lanes i claim_has_pr = is_some (pr_of i.observation.claim)
decision_context lanes i worktree_exists_for_branch = not (is_empty (worktrees_for_work_item i))
decision_context lanes i has_active_or_pending_session =
    any (λ s. not s.is_terminal) (sessions_for_work_item i)
decision_context lanes i has_terminal_coding_session =
    any (λ s. s.is_terminal) (coding_sessions lanes i)
decision_context lanes i has_terminal_review_session =
    any (λ s. s.is_terminal) (review_sessions lanes i)
decision_context lanes i commit_recorded =
    commit_is_newer i.observation.claim (worktrees_for_work_item i)
    && any (λ s. s.success && s.is_terminal) (coding_sessions lanes i)
decision_context lanes i coder_succeeded =
    any (λ s. s.success && s.is_terminal) (coding_sessions lanes i)
decision_context lanes i branch_pushed =
    pushed_after_claim i.observation.claim (worktrees_for_work_item i)
decision_context lanes i pr_head_moved = pr_moved i
decision_context lanes i findings_published_to_pr = findings_published i.observation.state
decision_context lanes i all_findings_dispositioned = findings_dispositioned i.observation.state
decision_context lanes i ci_recorded = ci_status_recorded i.ci_status
decision_context lanes i final_label_transitioned = phase_at_least i.observation.state done
decision_context lanes i two_or_more_live_sessions_same_lane =
    let live = filter (λ s. not s.is_terminal) (coding_sessions lanes i) in
    leb 2 (length live) && one_lane live
