-- ===== src/Foreman/Claims.antt =====
-- src/ai_pr_orchestrator/v3/foreman.py: the foreman's hold on the authoritative state of an issue:
-- loading and saving it, ending the run's lanes, authorization, and the ends of a run. The queue's
-- client is present. What is only logged is left out.
use aipro.Prelude.{
  ℕ, String, Bool, true, false, Option, none, some, List, [], ◌∷◌, not, ◌&&◌, ◌||◌, ◌==◌, string_eq,
  option_eq, find, cond, contains, Result, ok, err, Error, pr_reconciliation, foreman_ownership,
  ◌≡◌,
}
use aipro.Prelude.Dict.{Dict, lookup, insert}
use aipro.Domain.{
  GitHubIssueRef, WorkItemPhase, cancelled, failed, is_terminal, is_queued, Value, flag, obj,
  Fields,
}
use aipro.Domain.Identity.{slug}
use aipro.Domain.State.{WorkflowState, post_init}
use aipro.Lanes.{LaneIdentity, is_worker, get, developer_lane_name}
use aipro.Queue.Lifecycle.{holds_true}
use aipro.Foreman.Outcome.{WorkItemOutcome, ended, escalated_outcome}
use aipro.Foreman.Act.{
  Act, ◌>>=◌, ◌>>◌, return, raise, lift, escalation, raise_when, attempt, if◌then◌else◌,
}
use aipro.Foreman.Services.{ForemanPolicyLoop}
use aipro.Foreman.Extras.{
  merge_fields, same_entry, is_text, text_entry, fields_or_end, wave_lanes, assignment_from_dict,
}

abbrev pub nothing : Unit {0}
nothing = tt

-- `fresh.run_id != fallback.run_id or any(...)`
abbrev pub same_owner : WorkflowState → WorkflowState → Bool
same_owner x y =
    x.run_id == y.run_id
    && same_entry (lookup "host_id" x.extras) (lookup "host_id" y.extras)
    && same_entry (lookup "claimed_at" x.extras) (lookup "claimed_at" y.extras)

-- `TERMINAL_PHASES - {"cancelled"}`
abbrev pub is_cancelled : WorkItemPhase → Bool
is_cancelled cancelled = true
is_cancelled _ = false

abbrev pub cancelled_text : Option String → String
cancelled_text none = ""
cancelled_text (some t) = t

module _ {S : Type 0} (f : ForemanPolicyLoop S) where
  abbrev pub own : WorkflowState → Bool
  own x = x.run_id == f.run_id && is_text (lookup "host_id" x.extras) f.queue.host_id

  abbrev pub owned : WorkflowState → Option WorkflowState → Act S WorkflowState
  owned fallback none = raise foreman_ownership
  owned fallback (some fresh) =
      if same_owner fresh fallback then return fresh else raise foreman_ownership

  -- `_load`
  unfoldable pub load : GitHubIssueRef → WorkflowState → Act S WorkflowState
  load issue fallback = f.queue.load_state (slug issue) >>= owned fallback

  abbrev pub datetime_now : Act S ℕ
  datetime_now s = (s, ok (f.now s))

  -- `_save_fresh` with the extras as its only change
  unfoldable pub save_fresh : GitHubIssueRef → WorkflowState → Dict Value → Act S WorkflowState
  unfolding load
  save_fresh issue state extras = do
    fresh ← load issue state
    raise_when (is_terminal fresh.phase)
        (aipro.Prelude.foreman_escalation "cannot modify terminal work item")
    now ← datetime_now
    updated ← lift (post_init (record fresh { extras = extras; updated_at = now }))
    f.queue.save_state updated (some fresh.updated_at)
    return updated

  -- `_worker_lane`
  unfoldable pub worker_lane : Result LaneIdentity
  worker_lane = elim (find (λ e. is_worker e.1.role) f.lanes.lanes) [
    | none ↦ get f.lanes developer_lane_name
    | some e ↦ ok e.1
  ]

  abbrev pub terminate_each : List String → Act S (Unit {0})
  terminate_each [] = return nothing
  terminate_each (lane ∷ lanes) = do
    f.executor.terminate_session (f.session_name f.run_id lane none) lane
    terminate_each lanes

  unfoldable pub stop_attributed_reviewers : WorkflowState → Act S (Unit {0})
  stop_attributed_reviewers state = do
    waves ← lift (fields_or_end (lookup "review_waves" state.extras))
    lanes ← lift (wave_lanes waves)
    terminate_each lanes

  -- The developer's session when none is recorded: the one of its dispatched turn, if any.
  abbrev pub stop_dispatched : WorkflowState → Act S (Unit {0})
  stop_dispatched state = elim (lookup "coder_turn" state.extras) [
    | none ↦ return nothing
    | some turn ↦ do
      assignment ← lift (assignment_from_dict (lookup "developer_model" state.extras))
      f.executor.terminate_session (f.session_name f.run_id assignment.0 (some state.work_item_id))
          assignment.0
  ]

  unfoldable pub stop_developer_before_cleanup : WorkflowState → Act S (Unit {0})
  stop_developer_before_cleanup state =
      if holds_true (lookup "lanes_stopped" state.extras) then return nothing else do
        lane ← lift worker_lane
        elim (text_entry (lookup "developer_session" state.extras)) [
          | none ↦ stop_dispatched state
          | some session ↦ f.executor.terminate_session session lane.lane
        ]

  unfoldable pub stop_lanes : WorkflowState → Act S (Unit {0})
  stop_lanes state =
      attempt (stop_attributed_reviewers state >> stop_developer_before_cleanup state)
        (λ e. raise pr_reconciliation)

  abbrev pub stopped_extras : WorkflowState → Fields → Fields → Dict Value
  stopped_extras state saved made =
      insert "routing_decisions" (obj (merge_fields saved made))
        (insert "lanes_stopped" (flag true) state.extras)

  abbrev pub routing : Act S Fields
  routing s = (s, ok (f.routing_decisions s))

  abbrev pub stop_and_record : GitHubIssueRef → WorkflowState → Act S WorkflowState
  stop_and_record issue state = do
    stop_lanes state
    saved ← lift (fields_or_end (lookup "routing_decisions" state.extras))
    made ← routing
    save_fresh issue state (stopped_extras state saved made)

  -- `_confirm_lanes_stopped`
  unfoldable pub confirm_lanes_stopped : GitHubIssueRef → WorkflowState → Act S WorkflowState
  confirm_lanes_stopped issue state = do
    state ← load issue state
    if holds_true (lookup "lanes_stopped" state.extras)
        then return state
        else stop_and_record issue state

  abbrev pub untrusted : Bool → Option String
  untrusted true = none
  untrusted false = some "untrusted originating issue author association"

  unfoldable pub issue_authorization_reason : GitHubIssueRef → Act S (Option String)
  issue_authorization_reason issue =
      attempt
        (f.client.get_issue_author_association issue.number >>= λ association.
          return (untrusted (contains association f.safety.allowed_pr_author_associations)))
        (λ e. return (some "originating issue authorization unavailable"))

  unfoldable pub authorization_reason : GitHubIssueRef → Act S (Option String)
  authorization_reason issue = do
    enabled ← f.queue.is_enabled issue
    if enabled
        then issue_authorization_reason issue
        else return (some "stable issue opt-in label removed")

  abbrev pub rejected : GitHubIssueRef → Option String → Act S (Unit {0})
  rejected issue none = return nothing
  rejected issue (some reason) = f.queue.reject issue f.run_id reason >> escalation reason

  unfoldable pub authorize_new_work : GitHubIssueRef → Option WorkflowState → Act S (Unit {0})
  authorize_new_work issue (some existing) = return nothing
  authorize_new_work issue none = issue_authorization_reason issue >>= rejected issue

  abbrev pub beat : GitHubIssueRef → WorkflowState → Option String → Act S WorkflowState
  beat issue state none = f.queue.heartbeat state
  beat issue state (some reason) = do
    stopped ← confirm_lanes_stopped issue state
    ended ← f.queue.cancel issue stopped reason
    escalation reason

  -- `_heartbeat`, between lanes
  unfoldable pub heartbeat : GitHubIssueRef → WorkflowState → Act S WorkflowState
  heartbeat issue state = authorization_reason issue >>= beat issue state

  unfoldable pub transition :
      GitHubIssueRef
      → WorkflowState
      → WorkItemPhase
      → Option String
      → Option String
      → Act S WorkflowState
  transition issue state phase round_id terminal_reason = do
    state ←
        (if is_terminal phase || is_queued phase
          then confirm_lanes_stopped issue state
          else return state)
    f.queue.transition issue state phase round_id terminal_reason

  abbrev pub outcome_of_cancelled : GitHubIssueRef → Option WorkflowState → Option WorkItemOutcome
  outcome_of_cancelled issue none = none
  outcome_of_cancelled issue (some state) =
      cond (state.run_id == f.run_id && is_cancelled state.phase)
        (some (ended issue cancelled (cancelled_text state.terminal_reason))) none

  unfoldable pub cancelled_outcome : GitHubIssueRef → Act S (Option WorkItemOutcome)
  cancelled_outcome issue = do
    state ← f.queue.load_state (slug issue)
    return (outcome_of_cancelled issue state)

  abbrev pub escalate_or_cancel :
      GitHubIssueRef → WorkflowState → String → Option String → Act S WorkItemOutcome
  escalate_or_cancel issue state reason none = do
    ended ← f.queue.mark_needs_human issue state reason
    return (escalated_outcome issue reason)
  escalate_or_cancel issue state reason (some revoked) = do
    s ← f.queue.cancel issue state revoked
    return (ended issue cancelled revoked)

  abbrev pub escalate_unless :
      GitHubIssueRef → WorkflowState → String → Option WorkItemOutcome → Act S WorkItemOutcome
  escalate_unless issue state reason (some outcome) = return outcome
  escalate_unless issue state reason none = do
    stopped ← confirm_lanes_stopped issue state
    revoked ← authorization_reason issue
    escalate_or_cancel issue stopped reason revoked

  -- `_escalate`
  unfoldable pub escalate : GitHubIssueRef → WorkflowState → String → Act S WorkItemOutcome
  escalate issue state reason = cancelled_outcome issue >>= escalate_unless issue state reason

  -- `_fail`
  unfoldable pub fail : GitHubIssueRef → WorkflowState → String → Act S WorkItemOutcome
  fail issue state reason = do
    stopped ← confirm_lanes_stopped issue state
    s ← f.queue.fail issue stopped reason
    return (ended issue failed reason)

  abbrev pub crash_of : GitHubIssueRef → String → Option WorkflowState → Act S (Unit {0})
  crash_of issue reason none = return nothing
  crash_of issue reason (some state) =
      if is_terminal state.phase || not (own state)
      then return nothing
      else escalate issue state reason >>= λ outcome. return nothing

  unfoldable pub persist_crash : GitHubIssueRef → String → Act S (Unit {0})
  persist_crash issue reason = f.queue.load_state (slug issue) >>= crash_of issue reason

  abbrev pub clean_worktree : WorkflowState → Option String → Act S (Unit {0})
  clean_worktree state none = return nothing
  clean_worktree state (some worktree) =
      if worktree == ""
      then return nothing
      else attempt (stop_developer_before_cleanup state >> f.git.cleanup_worktree worktree)
          (λ e. return nothing)

  abbrev pub clean_terminal : Option WorkflowState → Act S (Unit {0})
  clean_terminal none = return nothing
  clean_terminal (some state) =
      if own state && is_terminal state.phase && not (is_cancelled state.phase)
      then clean_worktree state (text_entry (lookup "worktree" state.extras))
      else return nothing

  abbrev pub cleanup_loaded : S × Result (Option WorkflowState) → S × Result (Unit {0})
  cleanup_loaded (s, ok state) = clean_terminal state s
  cleanup_loaded (s, err e) = (s, ok nothing)

  -- `_cleanup_terminal_worktree`
  unfoldable pub cleanup_terminal_worktree : GitHubIssueRef → Act S (Unit {0})
  cleanup_terminal_worktree issue s = cleanup_loaded (f.queue.load_state (slug issue) s)
