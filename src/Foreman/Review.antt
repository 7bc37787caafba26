-- ===== src/Foreman/Review.antt =====
-- src/ai_pr_orchestrator/v3/foreman.py: a review round, fresh or recovered, from its admission to the
-- judgement of its progress.
use Prim.Native.String.{◌++◌ as join}
use aipro.Prelude.{
  ℕ, ◌+◌, String, Option, none, some, List, [], ◌∷◌, ◌++◌, map, filter, not, ◌&&◌, ◌||◌, ◌==◌,
  string_eq, nat_eq, ltb, leb, if◌then◌else◌, is_empty, length, foreman_escalation, ok,
}
use aipro.Prelude.Dict.{Dict, lookup, insert}
use aipro.Domain.{GitHubIssueRef, reviewing, Value, num, text, arr, obj, Items, Fields}
use aipro.Domain.Identity.{slug, decimal}
use aipro.Domain.State.{WorkflowState}
use aipro.Lanes.{is_reviewer}
use aipro.Foreman.Act.{Act, ◌>>=◌, ◌>>◌, return, lift, raise_when}
use aipro.Foreman.Services.{ForemanPolicyLoop}
use aipro.Foreman.Extras.{get_field, put_field, fields_or_end, item_fields, keys}
use aipro.Foreman.Claims.{save_fresh, transition, heartbeat}
use aipro.Foreman.Rounds.{
  RoundReport, WaveResult, ReviewWaves, append_item, history, report_to_dict, report_from_dict,
  saved_wave, optional_fields, item_text, is_reviewing, stagnant_after, round_key,
}

module _ {S : Type 0} (f : ForemanPolicyLoop S) where
  unfoldable pub reviewer_lanes : List String
  reviewer_lanes =
      if is_empty f.review_policy.reviewer_lanes
      then map (λ e. e.1.lane) (filter (λ e. is_reviewer e.1.role) f.lanes.lanes)
      else f.review_policy.reviewer_lanes

  -- `_begin_review_round`
  unfoldable pub begin_review_round :
      GitHubIssueRef → WorkflowState → ℕ → ℕ → Act S (WorkflowState × List String)
  begin_review_round issue state review_rounds reviewer_triggers = do
    raise_when (leb f.review_policy.max_review_rounds review_rounds)
        (foreman_escalation "review-round cap exhausted while fix findings pending")
    raise_when (is_empty reviewer_lanes)
        (foreman_escalation "review round requires at least one reviewer lane")
    raise_when
        (ltb f.safety.max_reviewer_triggers_per_run (reviewer_triggers + length reviewer_lanes))
        (foreman_escalation "reviewer trigger budget exhausted")
    state ←
        transition f issue state reviewing (some (join "review-" (decimal (review_rounds + 1))))
          none
    state ← heartbeat f issue state
    return (state, reviewer_lanes)

  -- `_snapshot`
  unfoldable pub snapshot : GitHubIssueRef → WorkflowState → String → Act S (WorkflowState × String)
  snapshot issue state worktree = do
    base ← f.git.default_branch
    count ← f.git.commit_count worktree base
    pending ← f.git.changed_files worktree none
    raise_when
        (ltb f.safety.max_commits_per_run count
          || (count == f.safety.max_commits_per_run && not (is_empty pending)))
        (foreman_escalation "commit budget exhausted")
    sha ←
        f.git.commit worktree
          (join "[aipro] work for " (join (slug issue) (join " (" (join f.run_id ")"))))
    state ← save_fresh f issue state (insert "head_sha" (text sha) state.extras)
    return (state, sha)

  -- `_validate_review_progress`
  unfoldable pub validate_review_progress : RoundReport → Act S RoundReport
  validate_review_progress report = do
    raise_when (not (is_empty report.remaining) && leb f.safety.max_total_iterations report.rounds)
        (foreman_escalation "unresolved findings")
    raise_when
        (ltb 1 report.rounds && leb f.escalation.stagnation_rounds_threshold report.stagnant_rounds)
        (foreman_escalation "review rounds produced no converging signal")
    return report

  abbrev pub report_of : WaveResult → ℕ → ℕ → ℕ → String → Items → RoundReport
  report_of w review_rounds stagnant_rounds triggers head_sha seen = record {
    remaining = w.remaining;
    rounds = review_rounds + 1;
    stagnant_rounds = stagnant_after stagnant_rounds w.signature seen w.had_signal;
    triggers = triggers;
    head_sha = head_sha;
  }

  -- The failures, with that of the heartbeat.
  abbrev pub wave_failures : WaveResult → List String
  wave_failures w = elim w.heartbeat_error [ none ↦ w.failures | some e ↦ w.failures ++ (e ∷ []) ]

  abbrev pub with_report : WaveResult → RoundReport → Fields
  with_report w report =
      if is_empty (wave_failures w)
      then put_field "report" (obj (report_to_dict report)) w.wave
      else w.wave

  abbrev pub progress_extras : WaveResult → RoundReport → Fields → Items → Dict Value
  progress_extras w report waves seen = insert "stagnant_rounds" (num report.stagnant_rounds) (
      insert "review_signatures" (arr (append_item seen w.signature)) (
        insert "review_waves"
          (obj (put_field (round_key w.state.round_id) (obj (with_report w report)) waves))
          w.state.extras))

  -- `_save_review_progress`
  unfoldable pub save_review_progress :
      GitHubIssueRef → WaveResult → ℕ → ℕ → ℕ → String → Act S RoundReport
  save_review_progress issue w review_rounds stagnant_rounds triggers head_sha = do
    waves ← lift (fields_or_end (lookup "review_waves" w.state.extras))
    seen ← lift (
        history "malformed durable review progress history"
          (lookup "review_signatures" w.state.extras))
    let report = report_of w review_rounds stagnant_rounds triggers head_sha seen
    saved ← save_fresh f issue w.state (progress_extras w report waves seen)
    return report

  module _ (r : ReviewWaves S) where
    -- The checkouts of the reviewers stay when the lease may be lost.
    abbrev pub cleaned_up : Option String → Fields → Act S (List String)
    cleaned_up none wave = r.cleanup wave
    cleaned_up (some error) wave = return []

    -- `_finish_review_wave`, behind the collection of the results
    unfoldable pub finish_review_wave :
        GitHubIssueRef → WaveResult → ℕ → ℕ → ℕ → String → Act S RoundReport
    unfolding save_review_progress validate_review_progress
    finish_review_wave issue w review_rounds stagnant_rounds reviewer_triggers head_sha = do
      report ←
          save_review_progress issue w review_rounds stagnant_rounds (reviewer_triggers + w.seats)
            head_sha
      failures ← cleaned_up w.heartbeat_error w.wave
      raise_when (not (is_empty (wave_failures w) && is_empty failures))
          (foreman_escalation "review wave incomplete")
      validate_review_progress report

    -- `_recovered_review_report`
    unfoldable pub recovered_review_report : WorkflowState → Fields → Fields → Act S RoundReport
    unfolding validate_review_progress
    recovered_review_report state wave report = do
      r.retire wave
      recovered ← lift (report_from_dict state report)
      validate_review_progress recovered

    abbrev pub resume_wave :
        GitHubIssueRef
        → WorkflowState
        → String
        → ℕ
        → ℕ
        → ℕ
        → Fields
        → List String
        → String
        → String
        → Option Fields
        → Act S RoundReport
    resume_wave issue state worktree rounds stagnant triggers wave lanes head_sha body
          (some report) =
        recovered_review_report state wave report
    resume_wave issue state worktree rounds stagnant triggers wave lanes head_sha body none = do
      w ← r.conduct issue state worktree body head_sha lanes (some wave)
      finish_review_wave issue w rounds stagnant triggers head_sha

    abbrev pub review_from :
        GitHubIssueRef → WorkflowState → String → ℕ → ℕ → ℕ → Option Fields → Act S RoundReport
    review_from issue state worktree rounds stagnant triggers none = do
      (begun, lanes) ← begin_review_round issue state rounds triggers
      body ← r.read_issue_body issue
      (shot, head_sha) ← snapshot issue begun worktree
      w ← r.conduct issue shot worktree body head_sha lanes none
      finish_review_wave issue w rounds stagnant triggers head_sha
    review_from issue state worktree rounds stagnant triggers (some wave) = do
      lanes ← lift (item_fields "lanes" (obj wave))
      head_sha ← lift (item_text (get_field "head_sha" wave))
      body ← r.read_issue_body issue
      r.validate_recovered wave state worktree body
      report ← lift (optional_fields (get_field "report" wave))
      resume_wave issue state worktree rounds stagnant triggers wave (keys lanes) head_sha body
          report

    -- `_review`
    unfoldable pub review : GitHubIssueRef → WorkflowState → String → ℕ → ℕ → ℕ → Act S RoundReport
    review issue state worktree rounds stagnant triggers = do
      waves ← lift (fields_or_end (lookup "review_waves" state.extras))
      wave ← lift (if is_reviewing state.phase then saved_wave waves state.round_id else ok none)
      review_from issue state worktree rounds stagnant triggers wave
