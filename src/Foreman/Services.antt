-- ===== src/Foreman/Services.antt =====
-- src/ai_pr_orchestrator/v3/foreman.py and interfaces.py: what the policy loop works with. The queue,
-- the executor of lanes, git and GitHub answer by interfaces; `now` is the clock, `session_name` is
-- `session_name_for`, and the operations of Python on texts are parameters.
use aipro.Prelude.{ℕ, String, Bool, Option, List, Error, Result}
use aipro.Config.{CiPolicyConfig, SafetyPolicyConfig, ReviewPolicyConfig, EscalationPolicyConfig}
use aipro.Domain.{GitHubIssueRef, WorkItemPhase, Fields}
use aipro.Domain.State.{WorkflowState}
use aipro.Interfaces.{GateDecision}
use aipro.Lanes.{LaneRegistry}
use aipro.Foreman.Act.{Act}

pub record ForemanQueue (S : Type 0) : Type 0 where
  pub host_id : String
  pub load_state : String → Act S (Option WorkflowState)
  pub save_state : WorkflowState → Option ℕ → Act S (Unit {0})
  pub is_enabled : GitHubIssueRef → Act S Bool
  pub reject : GitHubIssueRef → String → String → Act S (Unit {0})
  pub cancel : GitHubIssueRef → WorkflowState → String → Act S WorkflowState
  pub claim :
      GitHubIssueRef → String → Option String → Option String → Option ℕ → Act S WorkflowState
  pub transition :
      GitHubIssueRef
      → WorkflowState
      → WorkItemPhase
      → Option String
      → Option String
      → Act S WorkflowState
  pub mark_needs_human : GitHubIssueRef → WorkflowState → String → Act S WorkflowState
  pub fail : GitHubIssueRef → WorkflowState → String → Act S WorkflowState
  pub heartbeat : WorkflowState → Act S WorkflowState

pub record PullRequest : Type 0 where
  pub number : ℕ
  pub body : String
  pub state : String
  pub head_ref : String
  pub base_ref : String
  pub head_sha : String
  pub is_fork : Bool
  pub author_association : String

pub record GitHubPullRequestRef : Type 0 where
  pub owner : String
  pub repo : String
  pub number : ℕ
  pub head_sha : String

pub record GitHubClient (S : Type 0) : Type 0 where
  pub get_issue_author_association : ℕ → Act S String
  pub get_pr : ℕ → Act S PullRequest
  pub list_open_prs : Act S (List PullRequest)
  -- title, body, head and base
  pub create_pr : String → String → String → String → Act S PullRequest
  pub update_pr_body : ℕ → String → Act S PullRequest

pub record LaneExecutor (S : Type 0) : Type 0 where
  -- session and lane of the handle
  pub terminate_session : String → String → Act S (Unit {0})

-- The decision, with its `detail`.
pub record CiGate (S : Type 0) : Type 0 where
  pub evaluate : GitHubIssueRef → GitHubPullRequestRef → Act S (GateDecision × String)

pub record GitOperations (S : Type 0) : Type 0 where
  pub default_branch : Act S String
  pub create_branch : String → String → Act S (Unit {0})
  pub create_worktree : String → String → String → String → Act S String
  pub verify_checkout : String → String → String → Act S (Unit {0})
  pub current_branch : String → Act S String
  pub head_sha : String → Act S String
  pub commit_count : String → String → Act S ℕ
  pub changed_files : String → Option String → Act S (List String)
  -- `commit(worktree, message, name=..., email=...)` in the name of the committer
  pub commit : String → String → Act S String
  pub push_sha : String → String → Act S (Unit {0})
  pub cleanup_worktree : String → Act S (Unit {0})

-- `ForemanPolicyLoop`, with the sections of its configuration.
pub record ForemanPolicyLoop (S : Type 0) : Type 0 where
  pub queue : ForemanQueue S
  pub client : GitHubClient S
  pub executor : LaneExecutor S
  pub gate : CiGate S
  pub git : GitOperations S
  pub lanes : LaneRegistry
  pub safety : SafetyPolicyConfig
  pub review_policy : ReviewPolicyConfig
  pub ci_policy : CiPolicyConfig
  pub escalation : EscalationPolicyConfig
  pub run_id : String
  pub worktree_root : String
  pub now : S → ℕ
  pub routing_decisions : S → Fields
  pub str_error : Error → String
  pub session_name : String → String → Option String → String
  -- `_signal_hash` of the names of failed checks and the detail, normalized and sorted
  pub failure_hash : List String → String → String
  -- `detail[:1000]`
  pub first_1000 : String → String
  -- `int(t.split("-")[-1])`, for a text that starts with "review-" or "response-"
  pub turn_number : String → Option (Result ℕ)
