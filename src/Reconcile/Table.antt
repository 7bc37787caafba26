-- ===== src/Reconcile/Table.antt =====
-- src/ai_pr_orchestrator/v3/reconcile.py: the decision table and the walk that takes its first
-- applicable row. The keys of the decision context are the constructors of `Key`.
use aipro.Prelude.{Bool, true, false, Option, none, some, List, [], ◌∷◌, ◌&&◌, not, if◌then◌else◌}
use aipro.Reconcile.{
  ActionKind, resume_session, collect_result, relaunch, escalate, halt_branch_moved, noop,
}

pub data Key : Type 0 where
  lease_present lease_alive work_item_in_terminal has_claim claim_has_branch claim_has_pr : Key
  worktree_exists_for_branch has_active_or_pending_session has_terminal_coding_session : Key
  has_terminal_review_session commit_recorded coder_succeeded branch_pushed pr_head_moved : Key
  findings_published_to_pr all_findings_dispositioned ci_recorded final_label_transitioned : Key
  two_or_more_live_sessions_same_lane : Key

pub data RowName : Type 0 where
  branch_moved stale_lease_other_owner duplicate_sessions post_push_before_review : RowName
  post_review_no_findings_recorded post_findings_no_disposition post_disposition_no_ci : RowName
  post_ci_no_pr post_pr_no_final_label session_terminal_pre_commit : RowName
  session_terminal_pre_push crash_after_claim_before_branch post_push_no_pr : RowName
  branch_exists_no_session session_in_flight already_terminal no_state_yet : RowName

pub record DecisionRow : Type 0 where
  pub name : RowName
  pub predicates : List (Key × Bool)
  pub action : ActionKind

abbrev row : RowName → ActionKind → List (Key × Bool) → DecisionRow
row name action predicates = record { name = name; predicates = predicates; action = action }

unfoldable pub crash_decision_table : List DecisionRow
crash_decision_table =
    row branch_moved halt_branch_moved ((pr_head_moved, true) ∷ [])
    ∷ row stale_lease_other_owner escalate
        ((lease_present, true) ∷ (lease_alive, false) ∷ (work_item_in_terminal, false) ∷ [])
    ∷ row duplicate_sessions escalate ((two_or_more_live_sessions_same_lane, true) ∷ [])
    ∷ row post_push_before_review resume_session (
        (has_claim, true)
        ∷ (claim_has_pr, true)
        ∷ (has_terminal_review_session, false)
        ∷ (has_active_or_pending_session, false)
        ∷ [])
    ∷ row post_review_no_findings_recorded collect_result (
        (has_claim, true)
        ∷ (claim_has_pr, true)
        ∷ (has_terminal_review_session, true)
        ∷ (findings_published_to_pr, false)
        ∷ [])
    ∷ row post_findings_no_disposition relaunch (
        (has_claim, true)
        ∷ (claim_has_pr, true)
        ∷ (findings_published_to_pr, true)
        ∷ (all_findings_dispositioned, false)
        ∷ [])
    ∷ row post_disposition_no_ci resume_session (
        (has_claim, true)
        ∷ (claim_has_pr, true)
        ∷ (all_findings_dispositioned, true)
        ∷ (ci_recorded, false)
        ∷ [])
    ∷ row post_ci_no_pr relaunch (
        (has_claim, true)
        ∷ (all_findings_dispositioned, true)
        ∷ (ci_recorded, true)
        ∷ (claim_has_pr, false)
        ∷ [])
    ∷ row post_pr_no_final_label resume_session
        ((has_claim, true) ∷ (claim_has_pr, true) ∷ (final_label_transitioned, false) ∷ [])
    ∷ row session_terminal_pre_commit collect_result (
        (has_claim, true)
        ∷ (has_terminal_coding_session, true)
        ∷ (coder_succeeded, true)
        ∷ (commit_recorded, false)
        ∷ [])
    ∷ row session_terminal_pre_push collect_result (
        (has_claim, true)
        ∷ (has_terminal_coding_session, true)
        ∷ (coder_succeeded, true)
        ∷ (commit_recorded, true)
        ∷ (branch_pushed, false)
        ∷ [])
    ∷ row crash_after_claim_before_branch resume_session
        ((has_claim, true) ∷ (claim_has_branch, false) ∷ (lease_alive, true) ∷ [])
    ∷ row post_push_no_pr resume_session (
        (has_claim, true)
        ∷ (claim_has_branch, true)
        ∷ (claim_has_pr, false)
        ∷ (branch_pushed, true)
        ∷ (has_active_or_pending_session, false)
        ∷ [])
    ∷ row branch_exists_no_session relaunch (
        (has_claim, true)
        ∷ (claim_has_branch, true)
        ∷ (worktree_exists_for_branch, true)
        ∷ (has_active_or_pending_session, false)
        ∷ [])
    ∷ row session_in_flight collect_result (
        (has_claim, true)
        ∷ (has_active_or_pending_session, true)
        ∷ (has_terminal_coding_session, false)
        ∷ [])
    ∷ row already_terminal noop ((work_item_in_terminal, true) ∷ [])
    ∷ row no_state_yet noop ((lease_present, false) ∷ [])
    ∷ []

abbrev agrees : Bool → Bool → Bool
agrees true b = b
agrees false b = not b

-- `all(ctx.get(name) == expected for name, expected in row.predicates)`
unfoldable pub applicable : (Key → Bool) → List (Key × Bool) → Bool
applicable ctx [] = true
applicable ctx ((k, expected) ∷ ps) = agrees expected (ctx k) && applicable ctx ps

-- The loop of `_plan_crash_point`: the first applicable row.
unfoldable pub first_applicable : (Key → Bool) → List DecisionRow → Option DecisionRow
first_applicable ctx [] = none
first_applicable ctx (r ∷ rs) =
    if applicable ctx r.predicates then some r else first_applicable ctx rs
