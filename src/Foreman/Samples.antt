-- ===== src/Foreman/Samples.antt =====
-- A desk on which one work item is carried from its claim to a green gate: the state that is stored,
-- and services that answer at once. Used by the tests and witnesses of the foreman.
use aipro.Prelude.{String, true, false, Option, none, some, List, [], ◌∷◌, ok}
use aipro.Domain.{
  GitHubIssueRef, WorkItemPhase, claiming, reviewing, fix, cancelled, escalated, failed, text,
  stamp, end, entry, obj, worker, reviewer,
}
use aipro.Domain.Finding.{FindingDisposition}
use aipro.Domain.State.{WorkflowState}
use aipro.Interfaces.{GateDecision}
use aipro.Lanes.{LaneRegistry}
use aipro.Foreman.Act.{Act}
use aipro.Foreman.Services.{
  ForemanQueue, PullRequest, GitHubClient, GitOperations, ForemanPolicyLoop,
}
use aipro.Foreman.Rounds.{ReviewWaves}
use aipro.Foreman.Publication.{Summaries}
use aipro.Foreman.Development.{CoderTurns}

pub record Desk : Type 0 where
  pub stored : Option WorkflowState

abbrev pub issue : GitHubIssueRef
issue = record { owner = "acme"; repo = "app"; number = 7 }

abbrev pub claimed : WorkflowState
claimed = record {
  work_item_id = "acme/app#7";
  run_id = "r1";
  phase = claiming;
  round_id = none;
  updated_at = 10;
  terminal_reason = none;
  findings = [];
  dispositions = [];
  archived = [];
  extras = ("host_id", text "host") ∷ ("claimed_at", stamp 10) ∷ [];
}

abbrev keep : WorkflowState → Act Desk WorkflowState
keep x s = (record { stored = some x }, ok x)

abbrev moved : WorkflowState → WorkItemPhase → Option String → Option String → WorkflowState
moved x phase round reason = record x { phase = phase; round_id = round; terminal_reason = reason }

abbrev desk_queue : ForemanQueue Desk
desk_queue = record {
  host_id = "host";
  load_state = λ id s. (s, ok s.stored);
  save_state = λ x expected s. (record { stored = some x }, ok tt);
  is_enabled = λ i s. (s, ok true);
  reject = λ i run reason s. (s, ok tt);
  cancel = λ i x reason. keep (moved x cancelled x.round_id (some reason));
  claim = λ i run branch worktree pr. keep claimed;
  transition = λ i x phase round reason. keep (moved x phase round reason);
  mark_needs_human = λ i x reason. keep (moved x escalated x.round_id (some reason));
  fail = λ i x reason. keep (moved x failed x.round_id (some reason));
  heartbeat = λ x. keep x;
}

abbrev pub request : PullRequest
request = record {
  number = 5;
  body = "summary";
  state = "open";
  head_ref = "aipro-issue-7";
  base_ref = "main";
  head_sha = "abc";
  is_fork = false;
  author_association = "OWNER";
}

abbrev desk_client : {S : Type 0} → GitHubClient S
desk_client = record {
  get_issue_author_association = λ n s. (s, ok "OWNER");
  get_pr = λ n s. (s, ok request);
  list_open_prs = λ s. (s, ok []);
  create_pr = λ title body head base s. (s, ok request);
  update_pr_body = λ n body s. (s, ok request);
}

abbrev desk_git : {S : Type 0} → GitOperations S
desk_git = record {
  default_branch = λ s. (s, ok "main");
  create_branch = λ b base s. (s, ok tt);
  create_worktree = λ path b run id s. (s, ok path);
  verify_checkout = λ path run id s. (s, ok tt);
  current_branch = λ w s. (s, ok "aipro-issue-7");
  head_sha = λ w s. (s, ok "abc");
  commit_count = λ w base s. (s, ok 0);
  changed_files = λ w base s. (s, ok []);
  commit = λ w message s. (s, ok "abc");
  push_sha = λ sha b s. (s, ok tt);
  cleanup_worktree = λ w s. (s, ok tt);
}

abbrev desk_lanes : LaneRegistry
desk_lanes = record {
  lanes =
      ("developer", record { lane = "developer"; role = worker; profile_template = "d" })
      ∷ ("breaker", record { lane = "breaker"; role = reviewer; profile_template = "b" })
      ∷ [];
}

abbrev pub green : GateDecision
green = record { passed = true; pending_checks = []; failed_checks = [] }

abbrev pub loop_on : {S : Type 0} → ForemanQueue S → ForemanPolicyLoop S
loop_on queue = record {
  queue = queue;
  client = desk_client;
  executor = record { terminate_session = λ session lane s. (s, ok tt) };
  gate = record { evaluate = λ i pr s. (s, ok (green, "")) };
  git = desk_git;
  lanes = desk_lanes;
  safety = record {
    disallow_forks = true;
    disallow_workflow_file_changes = true;
    max_total_iterations = 3;
    max_commits_per_run = 1;
    max_coder_invocations_per_run = 1;
    max_reviewer_triggers_per_run = 3;
    max_prompt_tokens = 1000;
    allowed_pr_author_associations = "OWNER" ∷ [];
  };
  review_policy = record { reviewer_lanes = []; max_review_rounds = 3 };
  ci_policy = record {
    required_checks = [];
    require_green_ci_before_merge = true;
    ci_wait_timeout_seconds = 60;
  };
  escalation = record {
    max_consecutive_coder_failures = 3;
    stagnation_rounds_threshold = 3;
    max_run_seconds = 3600;
  };
  run_id = "r1";
  worktree_root = "/work";
  now = λ s. 20;
  routing_decisions = λ s. end;
  str_error = λ e. "error";
  session_name = λ run lane id. run;
  failure_hash = λ names detail. "h";
  first_1000 = λ t. t;
  turn_number = λ t. none;
}

abbrev pub desk_loop : ForemanPolicyLoop Desk
desk_loop = loop_on desk_queue

abbrev pub coder : {S : Type 0} → CoderTurns S
coder = record {
  run_coder = λ i x w findings s.
      (s, ok (x, record { changed_files = "app.py" ∷ []; dispositions = [] }, 1));
  record_proposals = λ x result s. (s, ok x);
}

abbrev pub waves : {S : Type 0} → ReviewWaves S
waves = record {
  read_issue_body = λ i s. (s, ok "body");
  validate_recovered = λ wave x w body s. (s, ok tt);
  retire = λ wave s. (s, ok tt);
  conduct = λ i x w body head lanes wave s. (
    s,
    ok (record {
      state = x;
      wave = entry "lanes" (obj (entry "breaker" (obj end) end)) end;
      remaining = [];
      had_signal = true;
      failures = [];
      heartbeat_error = none;
      seats = 1;
      signature = "s";
    }),
  );
  cleanup = λ wave s. (s, ok []);
}

abbrev pub summaries : Summaries
summaries = record { pr_body = λ i x. "summary"; with_pr_summary = λ body summary. some summary }

abbrev pub empty_desk : Desk
empty_desk = record { stored = none }

abbrev pub at_claim : Desk
at_claim = record { stored = some claimed }

abbrev pub emptied : WorkflowState
emptied = record claimed { extras = []; updated_at = 20 }

-- A run that was stopped in the middle of its first review.
abbrev pub reviewing_state : WorkflowState
reviewing_state = record claimed {
  phase = reviewing;
  round_id = some "review-1";
  extras =
      (
        "review_waves",
        obj (
            entry "review-1" (obj (entry "head_sha" (text "abc") (entry "lanes" (obj end) end)))
              end),
      )
      ∷ ("branch", text "aipro-issue-7")
      ∷ ("worktree", text "/work")
      ∷ claimed.extras;
}

abbrev pub at_review : Desk
at_review = record { stored = some reviewing_state }

abbrev pub reply : String → FindingDisposition
reply id = record {
  finding_id = id;
  action = fix;
  rationale = "done";
  decided_by = "developer";
  thread_id = none;
  reply_body = none;
  run_id = some "r1";
  round_id = some "response-1";
  response_to_round_id = none;
}

abbrev pub two_replies : List FindingDisposition
two_replies = reply "f1" ∷ reply "f2" ∷ []
