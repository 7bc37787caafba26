-- ===== src/Reconcile.antt =====
-- src/ai_pr_orchestrator/v3/reconcile.py: what the reconciliation planner sees and what it may
-- order. The `reason` texts, which are for the operator's eyes, are left out; timestamps are
-- numbers of microseconds, and `age < ttl` on datetimes is `now < last + ttl`.
pub mod Table
pub mod Context
pub mod Planner
pub mod Guards
pub mod Branches
pub mod Rows
pub mod Orphans
pub mod Helpers
pub mod HelperAgreement
pub mod LiveLeases
pub mod Recovery
pub mod Duplicates
pub mod Terminal
pub mod Samples
mod Examples
mod OrphanExamples
use aipro.Prelude.{
  ℕ, String, Bool, true, false, Option, none, some, List, [], ◌∷◌, filter, find, not, ◌&&◌, ◌==◌,
  string_eq, option_eq, if◌then◌else◌, is_empty,
}
use aipro.Config.{CleanupConfig, GitHubQueueConfig}
use aipro.Domain.{GitHubIssueRef, WorkItemPhase}
use aipro.Domain.Identity.{slug}
use aipro.Domain.State.{WorkflowState}
use aipro.Interfaces.{GateDecision}
use aipro.Queue.Claim.{Claim}

pub data ActionKind : Type 0 where
  resume_session collect_result relaunch escalate halt_branch_moved : ActionKind
  recover_stale_lease clean_orphan_session clean_orphan_worktree noop : ActionKind

-- Membership in _MANUAL_ACTIONS.
abbrev pub is_manual : ActionKind → Bool
is_manual escalate = true
is_manual halt_branch_moved = true
is_manual _ = false

abbrev pub is_relaunch : ActionKind → Bool
is_relaunch relaunch = true
is_relaunch _ = false

pub record Action : Type 0 where
  pub kind : ActionKind
  pub work_item_id : Option String
  pub run_id : Option String
  pub session_id : Option String
  pub branch : Option String
  pub worktree : Option String
  pub pr_number : Option ℕ
  pub auto_apply : Bool

-- `Action(...)` with `__post_init__`: a manual action is never applied automatically.
abbrev pub checked : Action → Action
checked a = if is_manual a.kind && a.auto_apply then record a { auto_apply = false } else a

-- The defaults of the fields.
abbrev pub bare : ActionKind → Action
bare kind = record {
  kind = kind;
  work_item_id = none;
  run_id = none;
  session_id = none;
  branch = none;
  worktree = none;
  pr_number = none;
  auto_apply = true;
}

abbrev pub actions_target_branch : Action → Bool
actions_target_branch a = is_relaunch a.kind

pub data SessionLifecycle : Type 0 where
  unknown starting active terminal failed : SessionLifecycle

pub record SessionObservation : Type 0 where
  pub session_id : String
  pub work_item_id : Option String
  pub run_id : Option String
  pub lane : String
  pub state : SessionLifecycle
  pub last_activity_at : ℕ
  pub success : Bool
  pub is_terminal : Bool

pub record WorktreeObservation : Type 0 where
  pub path : String
  pub branch : String
  pub last_commit_at : ℕ
  pub last_push_at : Option ℕ
  pub is_default_branch : Bool

pub record PullRequestObservation : Type 0 where
  pub number : ℕ
  pub branch : String
  pub head_sha : String
  pub expected_head_sha : Option String

abbrev pub head_moved : PullRequestObservation → Bool
head_moved pr = elim pr.expected_head_sha [ none ↦ false | some e ↦ not (e == pr.head_sha) ]

pub record WorkItemObservation : Type 0 where
  pub work_item : GitHubIssueRef
  pub state : Option WorkflowState
  pub claim : Option Claim

abbrev pub work_item_id : WorkItemObservation → String
work_item_id o = slug o.work_item

abbrev pub run_id : WorkItemObservation → Option String
run_id o = elim o.state [ none ↦ none | some s ↦ some s.run_id ]

-- A datetime that may lack its timezone.
pub record DateTime : Type 0 where
  pub instant : ℕ
  pub aware : Bool

pub record ReconciliationInputs : Type 0 where
  pub observation : WorkItemObservation
  pub sessions : List SessionObservation
  pub worktrees : List WorktreeObservation
  pub pull_requests : List PullRequestObservation
  pub config : CleanupConfig
  pub queue_config : GitHubQueueConfig
  pub now : DateTime
  pub ci_status : Option GateDecision

abbrev pub sessions_for_work_item : ReconciliationInputs → List SessionObservation
sessions_for_work_item i =
    filter (λ s. s.work_item_id == some (work_item_id i.observation)) i.sessions

abbrev pub sessions_for_run : ReconciliationInputs → Option String → List SessionObservation
sessions_for_run i none = []
sessions_for_run i (some run) = filter (λ s. s.run_id == some run) i.sessions

abbrev pub pull_request_for_branch : ReconciliationInputs → String → Option PullRequestObservation
pull_request_for_branch i branch = find (λ pr. pr.branch == branch) i.pull_requests
