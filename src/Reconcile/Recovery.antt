-- ===== src/Reconcile/Recovery.antt =====
-- When crash recovery acts on a claimed work item.
use aipro.Prelude.{Bool, true, false, Option, none, some, ◌≡◌, sym, ap, arith, ◌⊎◌, ◌∙◌}
use aipro.Lanes.{LaneRegistry}
use aipro.Reconcile.{ReconciliationInputs, Action, ActionKind, relaunch}
use aipro.Reconcile.Table.{
  DecisionRow, Key, applicable, first_applicable, crash_decision_table, lease_alive, has_claim,
  claim_has_branch, claim_has_pr, worktree_exists_for_branch, has_active_or_pending_session,
  has_terminal_coding_session, pr_head_moved, findings_published_to_pr, all_findings_dispositioned,
  final_label_transitioned, two_or_more_live_sessions_same_lane,
}
use aipro.Reconcile.Context.{decision_context}
use aipro.Reconcile.Planner.{bound_action, plan_crash_point}

-- If no row is taken though the item is claimed, the claim has a branch and no PR, and a session is
-- still open or the worktree is gone.
walk_none :
    (ctx : Key → Bool)
    → first_applicable ctx crash_decision_table ≡ none
    → ctx has_claim ≡ true
    → ctx lease_alive ≡ true
    → ctx final_label_transitioned ≡ false
    → (ctx claim_has_branch ≡ true)
      × (ctx claim_has_pr ≡ false)
      × ((ctx has_active_or_pending_session ≡ true) × (ctx has_terminal_coding_session ≡ true)
          ⊎ (ctx worktree_exists_for_branch ≡ false))
unfolding first_applicable crash_decision_table applicable
walk_none ctx h c l f = ground arith

abbrev row_kind : Option DecisionRow → Option ActionKind
row_kind none = none
row_kind (some r) = some r.action

walk_relaunch_alive :
    (ctx : Key → Bool)
    → ctx pr_head_moved ≡ false
    → ctx lease_alive ≡ true
    → ctx two_or_more_live_sessions_same_lane ≡ false
    → ctx has_claim ≡ true
    → ctx claim_has_pr ≡ true
    → ctx has_active_or_pending_session ≡ true
    → ctx findings_published_to_pr ≡ true
    → ctx all_findings_dispositioned ≡ false
    → row_kind (first_applicable ctx crash_decision_table) ≡ some relaunch
unfolding first_applicable crash_decision_table applicable
walk_relaunch_alive ctx h1 h2 h3 h4 h5 h6 h7 h8 = ground arith

abbrev pub action_kind : Option Action → Option ActionKind
action_kind none = none
action_kind (some a) = some a.kind

bound_kind :
    (lanes : LaneRegistry) (i : ReconciliationInputs)
    → action_kind (plan_crash_point lanes i)
      ≡ row_kind (first_applicable (decision_context lanes i) crash_decision_table)
unfolding plan_crash_point bound_action
bound_kind lanes i = ground arith

module _ (lanes : LaneRegistry) (i : ReconciliationInputs) where
  abbrev ctx : Key → Bool
  ctx = decision_context lanes i

  -- A claimed work item with a live lease, whose phase does not come to "done" or after it, gets no
  -- recovery action only if its claim has a branch and no PR, and either an open session stands
  -- beside an ended coding session or no worktree has the branch.
  pub recovery_gap :
      plan_crash_point lanes i ≡ none
      → ctx has_claim ≡ true
      → ctx lease_alive ≡ true
      → ctx final_label_transitioned ≡ false
      → (ctx claim_has_branch ≡ true)
        × (ctx claim_has_pr ≡ false)
        × ((ctx has_active_or_pending_session ≡ true) × (ctx has_terminal_coding_session ≡ true)
            ⊎ (ctx worktree_exists_for_branch ≡ false))
  recovery_gap h = walk_none ctx (no_row (sym (bound_kind lanes i) ∙ ap action_kind h))
    where
      no_row : {o : Option DecisionRow} → row_kind o ≡ none → o ≡ none
      no_row {o} q = ground arith

  -- Published findings that are not all disposed of are answered by a relaunch although a session
  -- of the work item is open (lease live, PR head in place, no duplicate coding sessions).
  pub relaunch_while_alive :
      ctx pr_head_moved ≡ false
      → ctx lease_alive ≡ true
      → ctx two_or_more_live_sessions_same_lane ≡ false
      → ctx has_claim ≡ true
      → ctx claim_has_pr ≡ true
      → ctx has_active_or_pending_session ≡ true
      → ctx findings_published_to_pr ≡ true
      → ctx all_findings_dispositioned ≡ false
      → action_kind (plan_crash_point lanes i) ≡ some relaunch
  relaunch_while_alive h1 h2 h3 h4 h5 h6 h7 h8 =
      bound_kind lanes i ∙ walk_relaunch_alive ctx h1 h2 h3 h4 h5 h6 h7 h8
