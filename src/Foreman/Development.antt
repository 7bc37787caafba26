-- ===== src/Foreman/Development.antt =====
-- src/ai_pr_orchestrator/v3/foreman.py: a development round: the coder's turn, the review behind it, and
-- what a restarted run reads of its checkpoint. The turns of the coder and the recording of its
-- proposals are an interface.
use aipro.Prelude.{
  ℕ, zero, suc, ◌+◌, ◌-◌, ◌*◌, String, Bool, true, false, Option, none, some, List, [], ◌∷◌, map,
  filter, any, not, ◌&&◌, ◌||◌, ◌==◌, string_eq, nat_eq, ltb, leb, cond, is_empty, length, Result,
  ok, err, Error, foreman_escalation, foreman_ownership, pr_reconciliation, cao_transport,
  session_busy, session_identity_uncertain, type_error,
}
use aipro.Prelude.Dict.{lookup}
use aipro.Domain.{
  GitHubIssueRef, WorkItemPhase, coding, ci_gating, updating_pr, done, claiming, Value, num, text,
  obj, truthy,
}
use aipro.Domain.Finding.{ReviewerFinding, FindingDisposition}
use aipro.Domain.State.{WorkflowState}
use aipro.Queue.Lifecycle.{holds_true, is_true}
use aipro.Foreman.Outcome.{WorkItemOutcome, ended}
use aipro.Foreman.Act.{Act, ◌>>=◌, return, lift, escalation, if◌then◌else◌}
use aipro.Foreman.Services.{ForemanPolicyLoop}
use aipro.Foreman.Extras.{get_field, is_text, text_entry, num_entry, is_set, fields_or_end}
use aipro.Foreman.Claims.{load, worker_lane, transition, fail}
use aipro.Foreman.Rounds.{RoundReport, ReviewWaves}
use aipro.Foreman.Review.{review}
use aipro.Foreman.Publication.{Summaries, path_policy_violation}
use aipro.Foreman.Gate.{enforce_deadline}
use aipro.Foreman.Proposals.{resume_proposals}

-- The part of a `LaneResult` that the loop reads.
pub record LaneResult : Type 0 where
  pub changed_files : List String
  pub dispositions : List FindingDisposition

pub record CoderTurns (S : Type 0) : Type 0 where
  -- `_run_coder`: the state, the result and the invocations
  pub run_coder :
      GitHubIssueRef
      → WorkflowState
      → String
      → List ReviewerFinding
      → Act S (WorkflowState × LaneResult × ℕ)
  -- `_record_proposals`
  pub record_proposals : WorkflowState → LaneResult → Act S WorkflowState

pub data Coded : Type 0 where
  failed : WorkItemOutcome → Coded
  coded : WorkflowState → ℕ → Coded

pub data Developed : Type 0 where
  finished : WorkItemOutcome → Developed
  reviewed : WorkflowState → RoundReport → ℕ → Developed

-- The variables of the loop.
pub record Progress : Type 0 where
  pub state : WorkflowState
  pub review_rounds : ℕ
  pub stagnant_rounds : ℕ
  pub reviewer_triggers : ℕ
  pub coder_invocations : ℕ
  pub recover_review : Bool
  pub fix_findings : List ReviewerFinding
  pub head_sha : Option String

-- Whether the run is in a phase that only the gate follows.
abbrev pub at_gate : WorkItemPhase → Bool
at_gate ci_gating = true
at_gate updating_pr = true
at_gate _ = false

abbrev pub is_coding : WorkItemPhase → Bool
is_coding coding = true
is_coding _ = false

module _ {S : Type 0} (f : ForemanPolicyLoop S) where
  -- `_saved_review_round`, over the rounds that a state names
  unfoldable pub saved_from : List (Option String) → ℕ → Result ℕ
  saved_from [] m = ok m
  saved_from (none ∷ ts) m = saved_from ts m
  saved_from (some t ∷ ts) m =
      aipro.Prelude.◌>>=◌
        (elim (f.turn_number t) [
          | none ↦ ok m
          | some r ↦ aipro.Prelude.◌>>=◌ r λ n. ok (cond (ltb m n) n m)
        ])
        λ k. saved_from ts k

  unfoldable pub saved_review_round : WorkflowState → Result ℕ
  saved_review_round state =
      saved_from (state.round_id ∷ map (λ d. d.round_id) state.dispositions) 0

  -- `_saved_prompt_tokens`, for its refusals
  abbrev pub prompt_tokens_of : WorkflowState → Option Value → Result ℕ
  prompt_tokens_of state (some (num tokens)) =
      cond (ltb f.safety.max_prompt_tokens tokens)
        (err (foreman_escalation "saved prompt token budget exceeds configured limit")) (ok tokens)
  prompt_tokens_of state v =
      cond (is_set v) (err (foreman_escalation "invalid durable prompt accounting")) (
        cond
          (holds_true (lookup "coder_turn" state.extras)
            || holds_true (lookup "review_waves" state.extras))
          (err (foreman_escalation "dispatch checkpoint lacks durable prompt accounting")) (ok 0))

  unfoldable pub saved_prompt_tokens : WorkflowState → Result ℕ
  saved_prompt_tokens state = prompt_tokens_of state (lookup "prompt_tokens" state.extras)

  abbrev pub unknown_usage : {A : Type 0} → Result A
  unknown_usage = err (foreman_escalation "coder budget usage is unknown; reconciliation required")

  abbrev pub malformed_usage : {A : Type 0} → Result A
  malformed_usage = err (foreman_escalation "malformed durable coder usage")

  abbrev pub is_claiming : WorkItemPhase → Bool
  is_claiming claiming = true
  is_claiming _ = false

  abbrev pub usage_of : Option Value → Option Value → Result ℕ
  usage_of (some (text run)) (some (num count)) =
      cond (run == f.run_id) (ok count)
        (err (foreman_escalation "coder usage belongs to another run"))
  usage_of _ _ = malformed_usage

  abbrev pub usage_from : WorkflowState → Option Value → Result ℕ
  usage_from state (some (obj fs)) =
      cond (aipro.Foreman.Extras.length_fields fs == 2)
        (usage_of (get_field "run_id" fs) (get_field "invocations" fs)) malformed_usage
  usage_from state v = cond (is_set v) malformed_usage (
      cond
        (is_claiming state.phase
          && not (truthy state.round_id)
          && is_empty state.findings
          && is_empty state.dispositions
          && is_empty state.archived)
        (ok 0) unknown_usage)

  -- `_coder_usage`
  unfoldable pub coder_usage : WorkflowState → Result ℕ
  coder_usage state = usage_from state (lookup "coder_usage" state.extras)

  abbrev pub no_commits : String → List String → Act S Bool
  no_commits worktree [] = do
    base ← f.git.default_branch
    count ← f.git.commit_count worktree base
    return (count == 0)
  no_commits worktree (p ∷ ps) = return false

  abbrev pub reports_no_changes : Option Value → Bool
  reports_no_changes none = false
  reports_no_changes (some v) = elim v [ obj fs ↦ is_true (get_field "no_changes" fs) | _ ↦ false ]

  -- `_clean_no_change`
  unfoldable pub clean_no_change : WorkflowState → String → Act S Bool
  clean_no_change state worktree =
      if reports_no_changes (lookup "developer_report" state.extras)
      then f.git.changed_files worktree none >>= no_commits worktree
      else return false

  module _ (c : CoderTurns S) (r : ReviewWaves S) (t : Summaries) where
    abbrev pub violated : GitHubIssueRef → WorkflowState → Act S Coded
    violated issue state = do
      outcome ← fail f issue state "policy violation: lane modified files under .github/workflows/"
      return (failed outcome)

    abbrev pub recorded : WorkflowState → LaneResult → List ReviewerFinding → ℕ → Act S Coded
    recorded state result findings invocations = do
      state ←
          (if any (λ g. not (g.lane == "ci")) findings
            then c.record_proposals state result
            else return state)
      return (coded state invocations)

    -- `_develop`
    unfoldable pub develop :
        GitHubIssueRef → WorkflowState → String → List ReviewerFinding → Act S Coded
    develop issue state worktree findings = do
      (state, result, invocations) ← c.run_coder issue state worktree findings
      if path_policy_violation f result.changed_files
          then violated issue state
          else recorded state result findings invocations

    abbrev pub coding_round :
        GitHubIssueRef → WorkflowState → String → List ReviewerFinding → ℕ → Bool → Act S Coded
    coding_round issue state worktree findings invocations true = return (coded state invocations)
    coding_round issue state worktree findings invocations false =
        develop issue state worktree findings

    abbrev pub skips_coding : Bool → WorkflowState → Result Bool
    skips_coding true state = ok true
    skips_coding false state =
        aipro.Prelude.◌>>=◌ (worker_lane f) λ lane. resume_proposals f.run_id lane.lane state

    abbrev pub no_changes : GitHubIssueRef → ℕ → ℕ → WorkItemOutcome
    no_changes issue rounds invocations =
        record (ended issue done "developer reported no changes") {
          review_rounds = rounds;
          coder_invocations = invocations;
        }

    abbrev pub round_ended :
        GitHubIssueRef → WorkflowState → RoundReport → ℕ → Bool → Act S Developed
    round_ended issue state report invocations false = return (reviewed state report invocations)
    round_ended issue state report invocations true = do
      moved ← transition f issue state done none (some "developer reported no changes")
      return (finished (no_changes issue report.rounds invocations))

    abbrev pub review_after : GitHubIssueRef → Progress → String → Coded → Act S Developed
    review_after issue p worktree (failed outcome) = return (finished outcome)
    review_after issue p worktree (coded state invocations) = do
      state ← enforce_deadline f issue state
      report ← review f r issue state worktree p.review_rounds p.stagnant_rounds p.reviewer_triggers
      loaded ← load f issue state
      state ← enforce_deadline f issue loaded
      clean ← (if is_empty report.remaining then clean_no_change state worktree else return false)
      round_ended issue state report invocations clean

    -- `_development_round`
    unfoldable pub development_round : GitHubIssueRef → Progress → Option String → Act S Developed
    development_round issue p none = escalation "coding requires a local worktree"
    development_round issue p (some worktree) = do
      invocations ← lift (coder_usage p.state)
      skip ← lift (skips_coding p.recover_review p.state)
      turn ← coding_round issue p.state worktree p.fix_findings invocations skip
      review_after issue p worktree turn
