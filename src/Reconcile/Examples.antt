-- ===== src/Reconcile/Examples.antt =====
-- The planner's theorems at small inputs.
use aipro.Prelude.{
  String, true, false, Option, none, some, List, [], ◌∷◌, ◌≡◌, ◌≢◌, refl, inl, inr, ok, In,
  Distinct, contains, any, filter, all, find, string_eq,
}
use aipro.Prelude.Dict.{lookup, insert, without, update, put_opt}
use aipro.Domain.Identity.{slug}
use aipro.Lanes.{get}
use aipro.Queue.Claim.{reattributed, to_dict, from_dict, claim_from_state}
use aipro.Reconcile.{
  Action, ReconciliationInputs, collect_result, relaunch, escalate, noop, work_item_id,
}
use aipro.Reconcile.Table.{
  DecisionRow, applicable, first_applicable, crash_decision_table, lease_present,
  duplicate_sessions, no_state_yet,
}
use aipro.Reconcile.Context.{
  lease_alive, findings_published, findings_dispositioned, ci_status_recorded, one_lane,
  worktrees_for_work_item, is_coding_lane, is_reviewer_lane, coding_sessions, review_sessions,
  commit_is_newer, pushed_after_claim, pr_moved, decision_context,
}
use aipro.Reconcile.Planner.{
  plan_branch_moved, plan_stale_lease, duplicates, plan_duplicate_sessions, session_id_for,
  bound_action, plan_crash_point, plan_orphan_sessions, plan_orphan_worktrees,
  collect_live_branches, owned_session, session_ids, live_sessions, collect_live_session_ids,
  plan_recovery, plan_one, plan_each, finalize_from, finalize, plan_many, item_action,
  in_terminal_phase,
}
use aipro.Reconcile.Branches.{relaunched_runs, plan_many-Distinct}
use aipro.Reconcile.Orphans.{clean_session, clean_worktree}
use aipro.Reconcile.LiveLeases.{HoldsLease, live_session_kept, live_branch_kept}
use aipro.Reconcile.Terminal.{terminal_untouched}
use aipro.Reconcile.Samples.{
  planner, lanes, issue, claim_on, tree, own, stray, running, stranded, finished,
}

program : Unit {0}
unfolding contains any filter all find lookup insert without update put_opt slug get reattributed
    to_dict from_dict claim_from_state applicable first_applicable crash_decision_table lease_alive
    findings_published findings_dispositioned ci_status_recorded one_lane worktrees_for_work_item
    is_coding_lane is_reviewer_lane coding_sessions review_sessions commit_is_newer
    pushed_after_claim pr_moved decision_context plan_branch_moved plan_stale_lease duplicates
    plan_duplicate_sessions session_id_for bound_action plan_crash_point plan_orphan_sessions
    plan_orphan_worktrees collect_live_branches owned_session session_ids live_sessions
    collect_live_session_ids plan_recovery plan_one plan_each finalize_from finalize plan_many
program = tt

abbrev items : List ReconciliationInputs
items = running ∷ stranded ∷ stranded ∷ finished ∷ []

-- The plan: the running session is collected, the leftovers are cleaned, and the stranded branch is
-- relaunched once.
abbrev planned : List Action
planned =
    record (item_action running collect_result) { session_id = some "own"; branch = some "a" }
    ∷ clean_session stray
    ∷ clean_worktree (tree "old")
    ∷ record (item_action stranded relaunch) { branch = some "b" }
    ∷ item_action finished noop
    ∷ []

plan_many-items : plan_many planner items ≡ ok planned
unfolding program
plan_many-items = refl

terminal_untouched_example :
    (i : ReconciliationInputs) × In i items
    × (in_terminal_phase i ≡ false)
    × (◌≡◌ {A = Option String} (some (slug (issue 8))) (some (work_item_id i.observation)))
terminal_untouched_example =
    terminal_untouched planner items planned
      (record (item_action stranded relaunch) { branch = some "b" }) plan_many-items
      (inr (inr (inr (inl refl)))) refl

lease : HoldsLease running (claim_on "a" none)
lease = record { claimed = refl; fresh = refl }

owned : owned_session running (claim_on "a" none) own ≡ true
unfolding program
owned = refl

live_session_kept_example : ◌≢◌ {A = Option String} (some "stray") (some "own")
live_session_kept_example =
    live_session_kept planner items planned running (claim_on "a" none) (clean_session stray) own
      plan_many-items (inl refl) lease (inl refl) owned (inr (inl refl)) refl

live_branch_kept_example : ◌≢◌ {A = Option String} (some "old") (some "a")
live_branch_kept_example =
    live_branch_kept planner items planned running (claim_on "a" none) (clean_worktree (tree "old"))
      "a" plan_many-items (inl refl) lease refl (inr (inr (inl refl))) refl

plan_many-Distinct_example : Distinct (relaunched_runs planned)
plan_many-Distinct_example = plan_many-Distinct planner items planned plan_many-items

abbrev relaunches : List Action
relaunches =
    item_action stranded relaunch ∷ item_action running noop ∷ item_action stranded relaunch ∷ []

abbrev two_rows : List DecisionRow
two_rows =
    record {
      name = duplicate_sessions;
      predicates = (lease_present, false) ∷ [];
      action = escalate;
    }
    ∷ record { name = no_state_yet; predicates = (lease_present, true) ∷ []; action = noop }
    ∷ []

recovered :
    plan_crash_point lanes stranded
    ≡ some (record (item_action stranded relaunch) { branch = some "b" })
unfolding program
recovered = refl
