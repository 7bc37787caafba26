-- ===== src/Config.antt =====
-- src/ai_pr_orchestrator/v3/config.py: the sections that the modelled parts read, without their
-- `extras`. A duration in seconds is compared with timestamps in microseconds.
use aipro.Prelude.{
  ℕ, ◌*◌, String, Bool, List, [], ◌∷◌, Result, ok, value_error, contains, string_eq, ◌>>◌, raise_if,
  ◌==◌,
}

-- `timedelta(seconds=n)`
abbrev pub seconds : ℕ → ℕ
seconds n = n * 1000000

pub record GitHubQueueConfig : Type 0 where
  pub enabled_label : String
  pub opt_in_label : String
  pub done_label : String
  pub error_label : String
  pub active_label : String
  pub review_label : String
  pub needs_human_label : String
  pub state_comment_marker : String
  pub lease_seconds : ℕ
  pub max_state_block_chars : ℕ

-- `_lifecycle_labels` of queue.py, in its order
abbrev pub lifecycle_labels : GitHubQueueConfig → List String
lifecycle_labels c =
    c.enabled_label ∷ c.active_label ∷ c.review_label ∷ c.needs_human_label ∷ c.done_label
    ∷ c.error_label ∷ []

-- `GitHubQueueConfig.__post_init__`; V3ConfigError is a ValueError. Types are right by typing.
pub queue_config : GitHubQueueConfig → Result GitHubQueueConfig
queue_config c = do
  raise_if (c.opt_in_label == "") value_error
  raise_if (contains c.opt_in_label (lifecycle_labels c)) value_error
  ok c

abbrev pub default_queue_config : GitHubQueueConfig
default_queue_config = record {
  enabled_label = "v3-work";
  opt_in_label = "v3-work-enabled";
  done_label = "v3-work-done";
  error_label = "v3-work-error";
  active_label = "v3-work-active";
  review_label = "v3-work-review";
  needs_human_label = "v3-work-needs-human";
  state_comment_marker = "v3-runtime-state";
  lease_seconds = 900;
  max_state_block_chars = 60000;
}

pub record CleanupConfig : Type 0 where
  pub session_lease_ttl_seconds : ℕ
  pub worktree_inactivity_ttl_seconds : ℕ

abbrev pub default_cleanup_config : CleanupConfig
default_cleanup_config = record {
  session_lease_ttl_seconds = 7200;
  worktree_inactivity_ttl_seconds = 86400;
}

pub record CiPolicyConfig : Type 0 where
  pub required_checks : List String
  pub require_green_ci_before_merge : Bool
  pub ci_wait_timeout_seconds : ℕ

-- Without `max_run_spend_usd`.
pub record SafetyPolicyConfig : Type 0 where
  pub disallow_forks : Bool
  pub disallow_workflow_file_changes : Bool
  pub max_total_iterations : ℕ
  pub max_commits_per_run : ℕ
  pub max_coder_invocations_per_run : ℕ
  pub max_reviewer_triggers_per_run : ℕ
  pub max_prompt_tokens : ℕ
  pub allowed_pr_author_associations : List String

pub record ReviewPolicyConfig : Type 0 where
  pub reviewer_lanes : List String
  pub max_review_rounds : ℕ

pub record EscalationPolicyConfig : Type 0 where
  pub max_consecutive_coder_failures : ℕ
  pub stagnation_rounds_threshold : ℕ
  pub max_run_seconds : ℕ
