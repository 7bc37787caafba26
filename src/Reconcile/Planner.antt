-- ===== src/Reconcile/Planner.antt =====
-- src/ai_pr_orchestrator/v3/reconcile.py: `ReconcilePlanner`. The planner's fields are the record
-- `Planner`; a generator of actions is the list of what it yields.
mod Steps
mod Orphans
unfoldable pub use Steps.*
unfoldable pub use Orphans.*
use aipro.Prelude.{
  ℕ, ◌+◌, String, Bool, false, Option, none, some, List, [], ◌∷◌, ◌++◌, filter, any, not, ◌&&◌,
  ◌||◌, ◌==◌, string_eq, nat_eq, option_eq, if◌then◌else◌, is_some, ltb, leb, length, contains,
  Result, ok, err, domain_error,
}
use aipro.Config.{CleanupConfig, GitHubQueueConfig, seconds}
use aipro.Domain.{is_terminal}
use aipro.Lanes.{LaneRegistry}
use aipro.Queue.Claim.{Claim, is_stale}
use aipro.Reconcile.{
  Action, ActionKind, collect_result, escalate, halt_branch_moved, clean_orphan_session,
  clean_orphan_worktree, noop, checked, bare, is_manual, actions_target_branch, SessionObservation,
  WorktreeObservation, PullRequestObservation, ReconciliationInputs, head_moved, work_item_id,
  run_id, sessions_for_work_item, sessions_for_run,
}
use aipro.Reconcile.Table.{
  RowName, DecisionRow, crash_decision_table, first_applicable, duplicate_sessions,
  post_push_before_review, post_review_no_findings_recorded, session_terminal_pre_commit,
  session_terminal_pre_push, crash_after_claim_before_branch, post_push_no_pr,
  branch_exists_no_session, session_in_flight, post_pr_no_final_label,
}
use aipro.Reconcile.Context.{
  decision_context, branch_of, pr_of, coding_sessions, review_sessions, one_lane,
}

pub record Planner : Type 0 where
  pub cleanup : CleanupConfig
  pub queue : GitHubQueueConfig
  pub lanes : LaneRegistry

abbrev to_list : Option Action → List Action
to_list none = []
to_list (some a) = a ∷ []

-- `first if first else second`, on lists
abbrev pub unless : List Action → List Action → List Action
unless [] later = later
unless (a ∷ rest) later = a ∷ rest

abbrev pub in_terminal_phase : ReconciliationInputs → Bool
in_terminal_phase i = elim i.observation.state [ none ↦ false | some s ↦ is_terminal s.phase ]

-- The part of `_plan_one` that no manual action cuts off.
unfoldable pub plan_recovery :
    Planner → List String → List String → ReconciliationInputs → List Action
plan_recovery p branches ids i =
    to_list (plan_crash_point p.lanes i)
    ++ (plan_orphan_sessions p.cleanup i.now.instant ids i.sessions
        ++ plan_orphan_worktrees p.cleanup i.now.instant branches i.worktrees)

unfoldable pub plan_one : Planner → List String → List String → ReconciliationInputs → List Action
plan_one p branches ids i =
    if in_terminal_phase i
    then item_action i noop ∷ []
    else unless (plan_branch_moved i) (
        unless (plan_stale_lease i)
          (unless (plan_duplicate_sessions i) (plan_recovery p branches ids i)))

unfoldable pub plan_each :
    Planner → List String → List String → List ReconciliationInputs → List Action
plan_each p branches ids [] = []
plan_each p branches ids (i ∷ is) = plan_one p branches ids i ++ plan_each p branches ids is

-- `action.run_id or ""`
abbrev pub run_key : Action → String
run_key a = elim a.run_id [ none ↦ "" | some r ↦ r ]

-- The loop of `_finalize`
unfoldable pub finalize_from : List String → List Action → List Action
finalize_from seen [] = []
finalize_from seen (a ∷ rest) =
    let again = finalize_from seen rest in
    let first = finalize_from (run_key a ∷ seen) rest in
    if actions_target_branch a
    then (if contains (run_key a) seen then again else a ∷ first)
    else a ∷ again

unfoldable pub finalize : List Action → List Action
finalize actions = finalize_from [] actions

unfoldable pub plan_many : Planner → List ReconciliationInputs → Result (List Action)
plan_many p is =
    if any (λ i. not i.now.aware) is
    then err domain_error
    else let actions = plan_each p (collect_live_branches is) (collect_live_session_ids is) is in
      ok (finalize (unless actions (bare noop ∷ [])))

-- `plan`
pub plan : Planner → ReconciliationInputs → Result (List Action)
plan p i = plan_many p (i ∷ [])
