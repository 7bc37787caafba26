-- ===== src/Foreman/Runs.antt =====
-- src/ai_pr_orchestrator/v3/foreman.py: a run of a work item, new or resumed, and what becomes of an
-- exception. Only an escalation and an unexpected error are persisted; the others go to the caller.
-- `turn_fuel` bounds the loop.
use Prim.Native.String.{◌++◌ as join}
use aipro.Prelude.{
  ℕ, suc, ◌+◌, String, Bool, true, false, Option, none, some, not, ◌&&◌, ◌||◌, ◌==◌, string_eq,
  is_some, cond, Result, ok, err, Error, foreman_escalation, foreman_ownership, pr_reconciliation,
  cao_transport, session_busy, session_identity_uncertain, runtime_error,
}
use aipro.Prelude.Dict.{Dict, lookup}
use aipro.Domain.{GitHubIssueRef, WorkItemPhase, queued, ci_gating, Value, truthy}
use aipro.Domain.Identity.{slug, decimal}
use aipro.Domain.State.{WorkflowState}
use aipro.Foreman.Outcome.{WorkItemOutcome, escalated_outcome}
use aipro.Foreman.Act.{
  Act, ◌>>=◌, ◌>>◌, return, raise, lift, raise_when, attempt, attempt_then, finally, if◌then◌else◌,
}
use aipro.Foreman.Services.{ForemanPolicyLoop}
use aipro.Foreman.Extras.{text_entry, num_entry, is_set, fields_or_end}
use aipro.Foreman.Claims.{
  own, heartbeat, cancelled_outcome, escalate, persist_crash, cleanup_terminal_worktree,
  authorize_new_work, nothing,
}
use aipro.Foreman.Rounds.{ReviewWaves, is_reviewing, has_wave}
use aipro.Foreman.Publication.{Summaries, verify_checkout}
use aipro.Foreman.Development.{CoderTurns, is_coding, at_gate}
use aipro.Foreman.Loop.{run_loop}

-- `existing.phase in ("queued", "ci_gating")`
abbrev pub may_wait : WorkItemPhase → Bool
may_wait queued = true
may_wait ci_gating = true
may_wait _ = false

-- `resume_at_gate` of `run_work`
abbrev pub waits_at_gate : Option WorkflowState → Bool
waits_at_gate none = false
waits_at_gate (some state) = may_wait state.phase && is_set (lookup "pr_number" state.extras)

-- The exceptions that `run_work` raises again.
abbrev pub is_fatal : Error → Bool
is_fatal cao_transport = true
is_fatal session_busy = true
is_fatal session_identity_uncertain = true
is_fatal pr_reconciliation = true
is_fatal foreman_ownership = true
is_fatal _ = false

abbrev pub extras_of : Option WorkflowState → Dict Value
extras_of none = aipro.Prelude.[]
extras_of (some state) = state.extras

-- `extras.get("branch") or branch`
abbrev pub branch_of : Option String → String → String
branch_of none branch = branch
branch_of (some b) branch = cond (b == "") branch b

-- `all(required)`
abbrev pub attributed : Bool → Option String → Option String → Bool
attributed at_gate branch worktree = truthy branch && (at_gate || truthy worktree)

module _ {S : Type 0} (f : ForemanPolicyLoop S) where
  -- `_acquire_checkout`
  abbrev pub new_checkout : GitHubIssueRef → String → Act S (Option String)
  new_checkout issue branch = do
    base ← f.git.default_branch
    f.git.create_branch branch base
    worktree ←
        f.git.create_worktree (join f.worktree_root (join "/issue-" (decimal issue.number))) branch
          f.run_id (slug issue)
    return (some worktree)

  abbrev pub verified :
      GitHubIssueRef
      → WorkflowState
      → String
      → Option String
      → Act S (WorkflowState × Option String)
  verified issue state branch none = return (state, none)
  verified issue state branch (some worktree) =
      if worktree == ""
      then return (state, some worktree)
      else (verify_checkout f issue state branch worktree >>= λ checked.
          return (checked, some worktree))

  unfoldable pub acquire_checkout :
      GitHubIssueRef → WorkflowState → String → Bool → Act S (WorkflowState × Option String)
  acquire_checkout issue state branch true =
      return (state, text_entry (lookup "worktree" state.extras))
  acquire_checkout issue state branch false = do
    let worktree = text_entry (lookup "worktree" state.extras)
    made ← (if truthy worktree then return worktree else new_checkout issue branch)
    verified issue state branch made

  abbrev pub wave_recorded : WorkflowState → Bool → Act S (Unit {0})
  wave_recorded state false = return nothing
  wave_recorded state true = do
    waves ← lift (fields_or_end (lookup "review_waves" state.extras))
    raise_when (not (has_wave waves state.round_id)) pr_reconciliation

  -- `_validate_recovery_checkpoint`
  unfoldable pub validate_recovery_checkpoint : WorkflowState → Act S (Unit {0})
  validate_recovery_checkpoint state = do
    raise_when (is_coding state.phase && not (is_some (lookup "coder_turn" state.extras)))
        pr_reconciliation
    wave_recorded state (is_reviewing state.phase)

  -- The outcome of the loop; without one, the fuel ran out.
  abbrev pub outcome_of : Option WorkItemOutcome → Act S WorkItemOutcome
  outcome_of none = raise runtime_error
  outcome_of (some outcome) = return outcome

  module _ (c : CoderTurns S) (r : ReviewWaves S) (t : Summaries) (turn_fuel : ℕ) where
    abbrev pub unless_cancelled :
        GitHubIssueRef → WorkflowState → String → Option WorkItemOutcome → Act S WorkItemOutcome
    unless_cancelled issue state reason (some outcome) = return outcome
    unless_cancelled issue state reason none = escalate f issue state reason

    abbrev pub escalated_run : GitHubIssueRef → WorkflowState → Error → Act S WorkItemOutcome
    escalated_run issue state (foreman_escalation reason) =
        cancelled_outcome f issue >>= unless_cancelled issue state reason
    escalated_run issue state e = raise e

    abbrev pub looped :
        GitHubIssueRef → WorkflowState → Option String → String → Bool → Act S WorkItemOutcome
    looped issue state worktree branch resume_at_gate =
        run_loop f c r t turn_fuel issue state worktree branch resume_at_gate >>= outcome_of

    abbrev pub claimed_run : GitHubIssueRef → String → Bool → WorkflowState → Act S WorkItemOutcome
    claimed_run issue branch resume_at_gate state =
        attempt_then (acquire_checkout issue state branch resume_at_gate)
          (λ held.
            attempt (looped issue held.0 held.1 branch resume_at_gate) (escalated_run issue held.0))
          (escalated_run issue state)

    -- `_drive`
    unfoldable pub drive : GitHubIssueRef → Option WorkflowState → Bool → Act S WorkItemOutcome
    drive issue existing resume_at_gate =
        let extras = extras_of existing in
        let branch =
          branch_of (text_entry (lookup "branch" extras))
            (join "aipro-issue-" (decimal issue.number)) in
        f.queue.claim issue f.run_id (some branch) (text_entry (lookup "worktree" extras))
          (num_entry (lookup "pr_number" extras))
        >>= claimed_run issue branch resume_at_gate

    abbrev pub crashed : GitHubIssueRef → String → Option WorkItemOutcome → Act S WorkItemOutcome
    crashed issue reason (some outcome) = return outcome
    crashed issue reason none = return (escalated_outcome issue reason)

    abbrev pub crash : GitHubIssueRef → Error → Act S WorkItemOutcome
    crash issue e = if is_fatal e then raise e else do
      let reason = join "foreman error: " (f.str_error e)
      persist_crash f issue reason
      cancelled ← cancelled_outcome f issue
      crashed issue reason cancelled

    abbrev pub last_cleanup : GitHubIssueRef → Bool → Act S (Unit {0})
    last_cleanup issue true = return nothing
    last_cleanup issue false = cleanup_terminal_worktree f issue

    abbrev pub run_existing : GitHubIssueRef → Option WorkflowState → Act S WorkItemOutcome
    run_existing issue existing =
        finally
          (attempt
            (authorize_new_work f issue existing >> drive issue existing (waits_at_gate existing))
            (crash issue))
          (last_cleanup issue (waits_at_gate existing))

    unfoldable pub run_work : GitHubIssueRef → Act S WorkItemOutcome
    run_work issue = f.queue.load_state (slug issue) >>= run_existing issue

    abbrev pub resumed_checkout :
        GitHubIssueRef → WorkflowState → Bool → Option String → Option String → Act S WorkflowState
    resumed_checkout issue state false (some branch) (some worktree) =
        verify_checkout f issue state branch worktree
    resumed_checkout issue state gate branch worktree = return state

    abbrev pub escalated_resume : GitHubIssueRef → WorkflowState → Error → Act S WorkItemOutcome
    escalated_resume issue state (foreman_escalation reason) = escalate f issue state reason
    escalated_resume issue state e = raise e

    abbrev pub beaten_run :
        GitHubIssueRef
        → Bool
        → Option String
        → Option String
        → WorkflowState
        → Act S WorkItemOutcome
    beaten_run issue gate branch worktree state =
        attempt_then (resumed_checkout issue state gate branch worktree)
          (λ checked.
            attempt (looped issue checked worktree (branch_of branch "") gate)
              (escalated_resume issue checked))
          (escalated_resume issue state)

    abbrev pub attributed_run :
        GitHubIssueRef → WorkflowState → Option String → Option String → Act S WorkItemOutcome
    attributed_run issue state branch worktree =
        finally
          (attempt_then (heartbeat f issue state)
            (beaten_run issue (at_gate state.phase) branch worktree) (escalated_resume issue state))
          (cleanup_terminal_worktree f issue)

    unfoldable pub resume_work : GitHubIssueRef → WorkflowState → Act S WorkItemOutcome
    resume_work issue state = do
      raise_when (not (own f state)) foreman_ownership
      validate_recovery_checkpoint state
      let branch = text_entry (lookup "branch" state.extras)
      let worktree = text_entry (lookup "worktree" state.extras)
      raise_when (not (attributed (at_gate state.phase) branch worktree)) pr_reconciliation
      attributed_run issue state branch worktree
