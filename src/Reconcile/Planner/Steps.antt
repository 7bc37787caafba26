-- ===== src/Reconcile/Planner/Steps.antt =====
-- src/ai_pr_orchestrator/v3/reconcile.py: the steps of `ReconcilePlanner` that look at one work item.
use aipro.Prelude.{
  ℕ, String, Bool, false, Option, none, some, List, [], ◌∷◌, ◌++◌, filter, not, ◌&&◌, ◌||◌, ◌==◌,
  string_eq, nat_eq, option_eq, if◌then◌else◌, ltb, leb, length,
}
use aipro.Domain.{is_terminal}
use aipro.Lanes.{LaneRegistry}
use aipro.Queue.Claim.{Claim, is_stale}
use aipro.Reconcile.{
  Action, ActionKind, collect_result, escalate, halt_branch_moved, checked, bare, is_manual,
  SessionObservation, PullRequestObservation, ReconciliationInputs, head_moved, work_item_id,
  run_id, sessions_for_work_item, sessions_for_run,
}
use aipro.Reconcile.Table.{
  RowName, DecisionRow, crash_decision_table, first_applicable, duplicate_sessions,
  post_push_before_review, post_review_no_findings_recorded, session_terminal_pre_commit,
  session_terminal_pre_push, crash_after_claim_before_branch, post_push_no_pr,
  branch_exists_no_session, session_in_flight, post_pr_no_final_label,
}
use aipro.Reconcile.Context.{
  decision_context, branch_of, pr_of, coding_sessions, review_sessions, one_lane,
}

-- The identity that an action of a work item carries.
abbrev pub item_action : ReconciliationInputs → ActionKind → Action
item_action i kind = record (bare kind) {
  work_item_id = some (work_item_id i.observation);
  run_id = run_id i.observation;
}

-- `_plan_branch_moved`
moved_pr : ℕ → List PullRequestObservation → Bool
moved_pr n [] = false
moved_pr n (pr ∷ prs) = (pr.number == n && head_moved pr) || moved_pr n prs

halt : ReconciliationInputs → Claim → ℕ → List Action
halt i c n =
    checked (record (item_action i halt_branch_moved) { branch = c.branch; pr_number = some n })
    ∷ []

unfoldable pub plan_branch_moved : ReconciliationInputs → List Action
unfolding moved_pr halt
plan_branch_moved i = elim i.observation.claim [
  | none ↦ []
  | some c ↦ elim c.pr_number [
    | none ↦ []
    | some n ↦ if moved_pr n i.pull_requests then halt i c n else []
  ]
]

-- `_plan_stale_lease`
unfoldable pub plan_stale_lease : ReconciliationInputs → List Action
plan_stale_lease i = elim i.observation.state [
  | none ↦ []
  | some s ↦ elim i.observation.claim [
    | none ↦ []
    | some c ↦
        if is_terminal s.phase
        then []
        else if is_stale c i.now.instant
        then checked (record (item_action i escalate) {
          run_id = some c.run_id;
          branch = c.branch;
          pr_number = c.pr_number;
        })
          ∷ []
        else []
  ]
]

-- `_plan_duplicate_sessions`, from the live and the terminal sessions of the run
abbrev with_session : ReconciliationInputs → ActionKind → SessionObservation → List Action
with_session i kind s =
    checked (record (item_action i kind) { session_id = some s.session_id }) ∷ []

unfoldable pub duplicates :
    ReconciliationInputs → List SessionObservation → List SessionObservation → List Action
duplicates i [] ended = []
duplicates i (l ∷ live) [] =
    if leb 2 (length (l ∷ live)) && one_lane (l ∷ live) then with_session i escalate l else []
duplicates i (l ∷ live) (t ∷ ended) =
    if leb 2 (length (l ∷ live)) && one_lane (l ∷ live)
    then with_session i escalate l
    else if one_lane ((l ∷ live) ++ (t ∷ ended))
    then with_session i escalate t
    else with_session i collect_result t

unfoldable pub plan_duplicate_sessions : ReconciliationInputs → List Action
unfolding duplicates
plan_duplicate_sessions i =
    let run_sessions = sessions_for_run i (run_id i.observation) in
    if ltb (length run_sessions) 2
    then []
    else duplicates i (filter (λ s. not s.is_terminal) run_sessions)
        (filter (λ s. s.is_terminal) run_sessions)

-- `max(sessions, key=lambda s: s.last_activity_at)`: the first of the latest.
latest : SessionObservation → List SessionObservation → SessionObservation
latest best [] = best
latest best (s ∷ ss) = latest (if ltb best.last_activity_at s.last_activity_at then s else best) ss

latest_id : List SessionObservation → Option String
unfolding latest
latest_id [] = none
latest_id (s ∷ ss) = some (latest s ss).session_id

abbrev first_id : List SessionObservation → Option String
first_id [] = none
first_id (s ∷ ss) = some s.session_id

abbrev or_next : Option String → Option String → Option String
or_next none o = o
or_next (some s) o = some s

-- `_session_id_for`
unfoldable pub session_id_for : LaneRegistry → ReconciliationInputs → RowName → Option String
unfolding latest_id
session_id_for lanes i name =
    let ended = filter (λ s. s.is_terminal) (sessions_for_run i (run_id i.observation)) in
    let resumed =
      or_next (latest_id (filter (λ s. not s.is_terminal) (sessions_for_work_item i)))
        (latest_id (sessions_for_work_item i)) in
    let coded = or_next (latest_id (coding_sessions lanes i)) (first_id ended) in
    elim name [
      | session_in_flight ↦ resumed
      | post_push_before_review ↦ resumed
      | post_push_no_pr ↦ resumed
      | crash_after_claim_before_branch ↦ resumed
      | branch_exists_no_session ↦ resumed
      | post_pr_no_final_label ↦ resumed
      | post_review_no_findings_recorded ↦
          or_next (latest_id (review_sessions lanes i)) (first_id ended)
      | session_terminal_pre_commit ↦ coded
      | session_terminal_pre_push ↦ coded
      | duplicate_sessions ↦ first_id ended
      | _ ↦ none
    ]

-- The action of an applicable row, bound to the work item.
unfoldable pub bound_action : LaneRegistry → ReconciliationInputs → DecisionRow → Action
bound_action lanes i r = checked (record (item_action i r.action) {
  session_id = session_id_for lanes i r.name;
  branch = branch_of i.observation.claim;
  pr_number = pr_of i.observation.claim;
  auto_apply = not (is_manual r.action);
})

-- `_plan_crash_point`
unfoldable pub plan_crash_point : LaneRegistry → ReconciliationInputs → Option Action
plan_crash_point lanes i = elim (first_applicable (decision_context lanes i) crash_decision_table) [
  | none ↦ none
  | some r ↦ some (bound_action lanes i r)
]
