-- ===== src/Reconcile/Samples.antt =====
-- Small inputs for the planner: one work item with a running session beside old leftovers, one with
-- a branch and no session, and one that is done.
use aipro.Prelude.{ℕ, ◌*◌, String, true, false, Option, none, some, List, [], ◌∷◌}
use aipro.Config.{default_cleanup_config, default_queue_config}
use aipro.Domain.{WorkItemPhase, coding, reviewing, done, GitHubIssueRef, opened, minor}
use aipro.Domain.Finding.{ReviewerFinding}
use aipro.Domain.State.{WorkflowState}
use aipro.Lanes.{LaneRegistry, default_lanes}
use aipro.Lanes.Uniqueness.{entries}
use aipro.Queue.Claim.{Claim, reattributed}
use aipro.Reconcile.{SessionObservation, active, WorktreeObservation, ReconciliationInputs}
use aipro.Reconcile.Planner.{Planner}

abbrev pub lanes : LaneRegistry
lanes = record { lanes = entries default_lanes }

abbrev pub planner : Planner
planner = record { cleanup = default_cleanup_config; queue = default_queue_config; lanes = lanes }

-- A point in time, in seconds.
abbrev pub at : ℕ → ℕ
at n = n * 1000000

abbrev pub claim_on : String → Option ℕ → Claim
claim_on branch pr = record {
  run_id = "run-1";
  host_id = "host-1";
  claimed_at = at 1000;
  lease_expires_at = at 300000;
  phase = "coding";
  branch = some branch;
  worktree = none;
  pr_number = pr;
  heartbeat_at = none;
}

abbrev pub finding : ReviewerFinding
finding = record {
  id = "f-1";
  lane = "breaker-reviewer";
  body = "off by one";
  severity = minor;
  run_id = "run-1";
  round_id = "1";
  created_at = at 2000;
  path = none;
  line = none;
  thread_id = some "thread-1";
  line_end = none;
  confidence = none;
  claim = none;
  evidence = [];
  falsification = none;
  reproduction_command = none;
  suggested_fix = none;
  head_sha = none;
  status = opened;
  status_reason = none;
  conflict_group_id = none;
  sources = [];
  extras = [];
}

abbrev pub state_on :
    String → Claim → WorkItemPhase → Option String → List ReviewerFinding → WorkflowState
state_on item claim phase reason findings = record {
  work_item_id = item;
  run_id = claim.run_id;
  phase = phase;
  round_id = none;
  updated_at = at 1000;
  terminal_reason = reason;
  findings = findings;
  dispositions = [];
  archived = [];
  extras = reattributed [] claim;
}

abbrev pub issue : ℕ → GitHubIssueRef
issue n = record { owner = "acme"; repo = "app"; number = n }

abbrev pub session : String → Option String → String → String → SessionObservation
session id item run lane = record {
  session_id = id;
  work_item_id = item;
  run_id = some run;
  lane = lane;
  state = active;
  last_activity_at = at 1000;
  success = true;
  is_terminal = false;
}

abbrev pub tree : String → WorktreeObservation
tree branch = record {
  path = branch;
  branch = branch;
  last_commit_at = at 500;
  last_push_at = none;
  is_default_branch = false;
}

abbrev pub inputs :
    ℕ
    → WorkflowState
    → Claim
    → List SessionObservation
    → List WorktreeObservation
    → ReconciliationInputs
inputs n state claim sessions worktrees = record {
  observation = record { work_item = issue n; state = some state; claim = some claim };
  sessions = sessions;
  worktrees = worktrees;
  pull_requests = [];
  config = default_cleanup_config;
  queue_config = default_queue_config;
  now = record { instant = at 200000; aware = true };
  ci_status = none;
}

abbrev pub own : SessionObservation
own = session "own" (some "acme/app#7") "run-1" "developer"

abbrev pub stray : SessionObservation
stray = session "stray" (some "acme/app#5") "run-5" "developer"

-- A developer session runs on branch "a"; a session of another item and a worktree are left over.
abbrev pub running : ReconciliationInputs
running =
    inputs 7 (state_on "acme/app#7" (claim_on "a" none) coding none []) (claim_on "a" none)
      (own ∷ stray ∷ []) (tree "a" ∷ tree "old" ∷ [])

-- A claimed branch with its worktree, and no session.
abbrev pub stranded : ReconciliationInputs
stranded =
    inputs 8 (state_on "acme/app#8" (claim_on "b" none) coding none []) (claim_on "b" none) []
      (tree "b" ∷ [])

abbrev pub finished : ReconciliationInputs
finished =
    inputs 9 (state_on "acme/app#9" (claim_on "c" none) done (some "merged") []) (claim_on "c" none)
      [] []

-- The PR of a running review has findings that nobody disposed of.
abbrev pub reviewed : ReconciliationInputs
reviewed =
    inputs 6 (state_on "acme/app#6" (claim_on "d" (some 3)) reviewing none (finding ∷ []))
      (claim_on "d" (some 3)) (session "review" (some "acme/app#6") "run-1" "breaker-reviewer" ∷ [])
      []

-- Claimed on a branch that no worktree has.
abbrev pub lost : ReconciliationInputs
lost = inputs 4 (state_on "acme/app#4" (claim_on "e" none) coding none []) (claim_on "e" none) [] []

-- Two sessions of one reviewer lane beside a developer session.
abbrev pub twin : String → String → SessionObservation
twin id lane = session id (some "acme/app#3") "run-1" lane

abbrev pub doubled : List SessionObservation → ReconciliationInputs
doubled sessions =
    inputs 3 (state_on "acme/app#3" (claim_on "f" none) reviewing none []) (claim_on "f" none)
      sessions []

abbrev pub crowded : ReconciliationInputs
crowded =
    doubled
      (twin "r1" "breaker-reviewer" ∷ twin "r2" "breaker-reviewer" ∷ twin "d1" "developer" ∷ [])

abbrev pub paired : ReconciliationInputs
paired = doubled (twin "r1" "breaker-reviewer" ∷ twin "r2" "breaker-reviewer" ∷ [])
