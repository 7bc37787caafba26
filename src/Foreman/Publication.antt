-- ===== src/Foreman/Publication.antt =====
-- src/ai_pr_orchestrator/v3/foreman.py: the checkout of the developer, the publication of the reviewed
-- snapshot, and the pull request of a run. The text of a pull request's summary is a parameter.
use Prim.Native.String.{◌++◌ as join}
use package.text.Mathlib.Text.{starts_with}
use aipro.Prelude.{
  ℕ, String, Bool, Option, none, some, List, [], ◌∷◌, any, not, ◌&&◌, ◌==◌, string_eq, option_eq,
  nat_eq, cond, contains, is_empty, Error, foreman_escalation, pr_reconciliation, http_status,
}
use aipro.Prelude.Dict.{lookup, insert}
use aipro.Domain.{GitHubIssueRef, text, num}
use aipro.Domain.Identity.{slug, decimal}
use aipro.Domain.State.{WorkflowState}
use aipro.Foreman.Act.{
  Act, ◌>>=◌, ◌>>◌, return, raise, escalation, raise_when, attempt, if◌then◌else◌,
}
use aipro.Foreman.Services.{ForemanPolicyLoop, PullRequest, GitHubPullRequestRef}
use aipro.Foreman.Extras.{is_text, text_entry, num_entry, is_set}
use aipro.Foreman.Claims.{load, save_fresh}

-- `_pr_body`, and `_with_pr_summary`: none if the markers are malformed
pub record Summaries : Type 0 where
  pub pr_body : GitHubIssueRef → WorkflowState → String
  pub with_pr_summary : String → String → Option String

module _ {S : Type 0} (f : ForemanPolicyLoop S) where
  unfoldable pub validate_branch : String → Act S (Unit {0})
  validate_branch branch = do
    base ← f.git.default_branch
    raise_when (branch == base)
        (foreman_escalation "policy violation: developer branch is the default branch")

  -- `_path_policy_violation`
  unfoldable pub path_policy_violation : List String → Bool
  path_policy_violation paths =
      f.safety.disallow_workflow_file_changes && any (λ p. starts_with p ".github/workflows/") paths

  -- `_persist_resources`
  unfoldable pub persist_resources :
      GitHubIssueRef → WorkflowState → String → String → Act S WorkflowState
  persist_resources issue state branch worktree = do
    fresh ← load f issue state
    sha ← f.git.head_sha worktree
    save_fresh f issue fresh (
        insert "head_sha" (text sha)
          (insert "worktree" (text worktree) (insert "branch" (text branch) fresh.extras)))

  -- `state.extras.get("head_sha") if same_checkout else None`
  abbrev pub expected_head : WorkflowState → String → String → Option String
  expected_head state branch worktree =
      cond
        (is_text (lookup "branch" state.extras) branch
          && is_text (lookup "worktree" state.extras) worktree)
        (text_entry (lookup "head_sha" state.extras)) none

  abbrev pub checked_head :
      GitHubIssueRef
      → WorkflowState
      → String
      → String
      → String
      → Option String
      → Act S WorkflowState
  checked_head issue state branch worktree actual none =
      persist_resources issue state branch worktree
  checked_head issue state branch worktree actual (some expected) =
      if expected == actual then return state else escalation "unexpected developer HEAD movement"

  -- `_verify_checkout`
  unfoldable pub verify_checkout :
      GitHubIssueRef → WorkflowState → String → String → Act S WorkflowState
  verify_checkout issue state branch worktree = do
    validate_branch branch
    f.git.verify_checkout worktree f.run_id (slug issue)
    actual_branch ← f.git.current_branch worktree
    raise_when (not (actual_branch == branch))
        (foreman_escalation "unexpected developer branch movement")
    actual ← f.git.head_sha worktree
    checked_head issue state branch worktree actual (expected_head state branch worktree)

  -- `_publish_snapshot`
  unfoldable pub publish_snapshot : String → String → String → Act S (Unit {0})
  publish_snapshot worktree branch head_sha = do
    validate_branch branch
    actual_branch ← f.git.current_branch worktree
    raise_when (not (actual_branch == branch))
        (foreman_escalation "unexpected developer branch movement")
    actual_head ← f.git.head_sha worktree
    raise_when (not (actual_head == head_sha))
        (foreman_escalation "unexpected developer HEAD movement after review")
    dirty ← f.git.changed_files worktree none
    raise_when (not (is_empty dirty))
        (foreman_escalation "developer worktree changed after the reviewed snapshot")
    base ← f.git.default_branch
    paths ← f.git.changed_files worktree (some base)
    raise_when (path_policy_violation paths)
        (foreman_escalation "policy violation: lane modified files under .github/workflows/")
    f.git.push_sha head_sha branch

  -- `_validate_pr_authority`
  unfoldable pub validate_pr_authority : PullRequest → Act S (Unit {0})
  validate_pr_authority pr = do
    raise_when (f.safety.disallow_forks && pr.is_fork)
        (foreman_escalation "policy violation: recorded PR comes from a fork")
    raise_when (not (contains pr.author_association f.safety.allowed_pr_author_associations))
        (foreman_escalation "policy violation: untrusted PR author association")
    raise_when (not (pr.state == "open"))
        (foreman_escalation "policy violation: recorded PR is no longer open")

  -- `_validate_pr_identity`; `none` is a base that is no text
  unfoldable pub validate_pr_identity : PullRequest → String → Option String → Act S (Unit {0})
  validate_pr_identity pr branch none = raise pr_reconciliation
  validate_pr_identity pr branch (some base) = do
    raise_when (not (pr.head_ref == branch && pr.base_ref == base))
        (foreman_escalation "policy violation: recorded PR branch/base changed")
    validate_pr_authority pr

  -- The default branch is asked for again at each pull request of the branch.
  unfoldable pub first_of_branch : String → List PullRequest → Act S (Option PullRequest)
  first_of_branch branch [] = return none
  first_of_branch branch (pr ∷ prs) =
      let rest = first_of_branch branch prs in
      if pr.head_ref == branch
      then (do
        base ← f.git.default_branch
        if pr.base_ref == base && not pr.is_fork then return (some pr) else rest)
      else rest

  -- `_discover_open_pr`
  unfoldable pub discover_open_pr : String → Act S (Option PullRequest)
  discover_open_pr branch = do prs ← f.client.list_open_prs; first_of_branch branch prs

  -- `_record_pr`
  unfoldable pub record_pr : GitHubIssueRef → WorkflowState → ℕ → String → Act S WorkflowState
  record_pr issue state number base = do
    fresh ← load f issue state
    save_fresh f issue fresh
        (insert "pr_base_ref" (text base) (insert "pr_number" (num number) fresh.extras))

  module _ (t : Summaries) where
    abbrev pub opened_pr :
        GitHubIssueRef → WorkflowState → String → String → Option PullRequest → Act S PullRequest
    opened_pr issue state branch base (some pr) = return pr
    opened_pr issue state branch base none =
        f.client.create_pr
          (join "[aipro] issue #" (join (decimal issue.number) ": automated change"))
          (t.pr_body issue state) branch base

    abbrev pub reconcile_found :
        GitHubIssueRef → WorkflowState → String → Option ℕ → Act S PullRequest
    reconcile_found issue state branch (some number) = do
      pr ← f.client.get_pr number
      validate_pr_identity pr branch (text_entry (lookup "pr_base_ref" state.extras))
      return pr
    reconcile_found issue state branch none = do
      base ← f.git.default_branch
      found ← discover_open_pr branch
      pr ← opened_pr issue state branch base found
      validate_pr_identity pr branch (some base)
      saved ← record_pr issue state pr.number pr.base_ref
      return pr

    -- `_reconcile_pr`
    unfoldable pub reconcile_pr : GitHubIssueRef → WorkflowState → String → Act S PullRequest
    reconcile_pr issue state branch =
        reconcile_found issue state branch (num_entry (lookup "pr_number" state.extras))

    abbrev pub summarized :
        GitHubIssueRef → WorkflowState → String → PullRequest → Option String → Act S PullRequest
    summarized issue state branch pr none = raise pr_reconciliation
    summarized issue state branch pr (some body) = if body == pr.body then return pr else do
      updated ← f.client.update_pr_body pr.number body
      fresh ← load f issue state
      validate_pr_identity updated branch (text_entry (lookup "pr_base_ref" fresh.extras))
      raise_when (not (updated.head_sha == pr.head_sha)) pr_reconciliation
      return updated

    -- `_ensure_pr`
    unfoldable pub ensure_pr :
        GitHubIssueRef → WorkflowState → String → Option String → Act S GitHubPullRequestRef
    ensure_pr issue state branch head_sha = do
      pr ← reconcile_pr issue state branch
      raise_when (not (some pr.head_sha == head_sha)) pr_reconciliation
      pr ← summarized issue state branch pr (t.with_pr_summary pr.body (t.pr_body issue state))
      return (record {
        owner = issue.owner;
        repo = issue.repo;
        number = pr.number;
        head_sha = pr.head_sha;
      })

    abbrev pub reconciliation_error : WorkflowState → Error → Error
    reconciliation_error state (foreman_escalation reason) = foreman_escalation reason
    reconciliation_error state (http_status code) =
        cond (code == 404 && is_set (lookup "pr_number" state.extras))
          (foreman_escalation "recorded PR could not be found") pr_reconciliation
    reconciliation_error state e = pr_reconciliation

    -- `_reconcile_gate_pr`
    unfoldable pub reconcile_gate_pr :
        GitHubIssueRef → WorkflowState → String → Option String → Act S GitHubPullRequestRef
    reconcile_gate_pr issue state branch head_sha =
        attempt (ensure_pr issue state branch head_sha) (λ e. raise (reconciliation_error state e))

  -- `_validate_ci_head`
  unfoldable pub validate_ci_head : GitHubPullRequestRef → String → Option String → Act S (Unit {0})
  validate_ci_head pr branch base = do
    actual ← attempt (f.client.get_pr pr.number) (λ e. raise pr_reconciliation)
    validate_pr_identity actual branch base
    raise_when (not (actual.head_sha == pr.head_sha)) pr_reconciliation
