-- ===== src/Scheduler/Assembly.antt =====
-- src/ai_pr_orchestrator/v3/scheduler.py, foreman.py and queue.py together: the policy loop that the
-- scheduler makes for a run, over the verbs of the queue on GitHub.
use aipro.Prelude.{ℕ, String, ok}
use aipro.Foreman.Services.{ForemanQueue, ForemanPolicyLoop}
use aipro.Foreman.Rounds.{ReviewWaves}
use aipro.Foreman.Publication.{Summaries}
use aipro.Foreman.Development.{CoderTurns}
use aipro.Foreman.Runs.{run_work, resume_work}
use aipro.Queue.Store.{GitHubIssueQueue, load_state, save_state}
use aipro.Queue.Lifecycle
use aipro.Queue.Lifecycle.{repair_labels, is_claim_stale, is_enabled}
use aipro.Scheduler.{PolicyLoop}

-- `GitHubIssueQueue` as the queue of the foreman; its verbs read the clock.
abbrev pub queue_verbs : {S B : Type 0} → GitHubIssueQueue S B → (S → ℕ) → ForemanQueue S
queue_verbs q now = record {
  host_id = q.host_id;
  load_state = λ id s. (s, load_state q s id);
  save_state = λ x expected s. save_state q s x expected;
  is_enabled = λ issue s. (s, ok (is_enabled q s issue));
  reject = λ issue run reason s. Lifecycle.reject q s issue run reason (now s);
  cancel = λ issue x reason s. Lifecycle.cancel q s issue x reason (now s);
  claim =
      λ issue run branch worktree pr s. Lifecycle.claim q s issue run branch worktree pr (now s);
  transition =
      λ issue x phase round reason s. Lifecycle.move q s issue x phase reason round (now s);
  mark_needs_human = λ issue x reason s. Lifecycle.mark_needs_human q s issue x reason (now s);
  fail = λ issue x reason s. Lifecycle.fail q s issue x reason (now s);
  heartbeat = λ x s. Lifecycle.heartbeat q s x (now s);
}

-- What a run is made of, by its id.
pub record Assembly (S : Type 0) : Type 0 where
  pub foreman : String → ForemanPolicyLoop S
  pub coder : String → CoderTurns S
  pub waves : String → ReviewWaves S
  pub summaries : Summaries
  pub turns : ℕ

-- The loop that the scheduler runs.
unfoldable pub policy_loop : {S : Type 0} → Assembly S → PolicyLoop S
policy_loop a = record {
  run_work = λ s run issue.
      run_work (a.foreman run) (a.coder run) (a.waves run) a.summaries a.turns issue s;
  resume_work = λ s run issue x.
      resume_work (a.foreman run) (a.coder run) (a.waves run) a.summaries a.turns issue x s;
}
