-- ===== src/Foreman/Examples.antt =====
-- Tests and witnesses for the foreman, on the desk of Samples.antt.
use aipro.Prelude.{
  ◌+◌, ◌≤◌, ◌<◌, true, false, some, List, [], ◌∷◌, ◌++◌, ◌≡◌, ◌⊎◌, refl, ok, find, filter, any,
  contains, length,
}
use aipro.Prelude.Dict.{lookup, insert}
use aipro.Domain.{done, is_terminal}
use aipro.Domain.Finding.{FindingDisposition}
use aipro.Domain.Identity.{slug, decimal}
use aipro.Domain.State.{WorkflowState, post_init}
use aipro.Foreman.Outcome.{ended}
use aipro.Foreman.Act.{◌>>=◌, if◌then◌else◌, attempt, attempt_then, finally, Returns}
use aipro.Foreman.Extras.{same_value, get_field, put_field, merge_fields, wave_lanes}
use aipro.Foreman.Claims.{
  load, save_fresh, worker_lane, stop_attributed_reviewers, stop_developer_before_cleanup,
  stop_lanes, confirm_lanes_stopped, issue_authorization_reason, authorization_reason,
  authorize_new_work, heartbeat, transition, cancelled_outcome, cleanup_terminal_worktree, own,
  same_owner, is_cancelled,
}
use aipro.Foreman.Rounds.{report_to_dict}
use aipro.Foreman.Review.{reviewer_lanes, begin_review_round, snapshot, finish_review_wave, review}
use aipro.Foreman.Publication.{
  validate_branch, path_policy_violation, persist_resources, verify_checkout, publish_snapshot,
  validate_pr_identity, validate_pr_authority, discover_open_pr, first_of_branch, record_pr,
  reconcile_pr, ensure_pr, reconcile_gate_pr, validate_ci_head,
}
use aipro.Foreman.Gate.{enforce_deadline, evaluate_gate, settle_gate, decision_to_dict}
use aipro.Foreman.Proposals.{resume_proposals, pending_proposals, pending_from}
use aipro.Foreman.Development.{
  coder_usage, clean_no_change, develop, development_round, saved_review_round, saved_from,
  saved_prompt_tokens,
}
use aipro.Foreman.Loop.{loop, run_loop}
use aipro.Foreman.Runs.{acquire_checkout, drive, run_work}
use aipro.Foreman.Samples.{
  Desk, issue, desk_loop, coder, waves, summaries, empty_desk, green, claimed, at_claim, emptied,
  reviewing_state, at_review, reply, two_replies,
}
use aipro.Foreman.Services.{PullRequest}
use aipro.Foreman.Proposals.{merge_dispositions}
use aipro.Foreman.Advance.{IsBounded, review-IsBounded, review-fresh}
use aipro.Foreman.Trust.{Answered, IsTrusted, ensure_pr-IsTrusted}
use aipro.Foreman.Saving.{save_fresh-saved, cleanup_terminal_worktree-own}
use aipro.Foreman.Replay.{merge_dispositions-replay}

-- The work item is carried to a green gate, in one round of review and one turn of the coder.
run_green :
    (run_work desk_loop coder waves summaries 4 issue empty_desk).1
    ≡ ok (record (ended issue done "ci green") {
      review_rounds = 1;
      coder_invocations = 1;
      gate = some green;
    })
unfolding run_work drive acquire_checkout loop run_loop coder_usage clean_no_change develop
    development_round saved_review_round saved_from saved_prompt_tokens resume_proposals
    pending_proposals pending_from enforce_deadline evaluate_gate settle_gate decision_to_dict
    validate_branch path_policy_violation persist_resources verify_checkout publish_snapshot
    validate_pr_identity validate_pr_authority discover_open_pr first_of_branch record_pr
    reconcile_pr ensure_pr reconcile_gate_pr validate_ci_head reviewer_lanes begin_review_round
    snapshot finish_review_wave review report_to_dict load save_fresh worker_lane
    stop_attributed_reviewers stop_developer_before_cleanup stop_lanes confirm_lanes_stopped
    issue_authorization_reason authorization_reason authorize_new_work heartbeat transition
    cancelled_outcome cleanup_terminal_worktree same_value get_field put_field merge_fields
    wave_lanes ◌>>=◌ if◌then◌else◌ attempt attempt_then finally slug decimal post_init lookup insert
    find filter any contains
run_green = refl

review-IsBounded_example :
    Returns
      (IsBounded desk_loop)
      (review desk_loop waves issue reviewing_state "/work" 0 0 0 at_review)
review-IsBounded_example =
    review-IsBounded desk_loop waves issue reviewing_state "/work" 0 0 0 at_review

review-fresh_example :
    Returns
      (λ report.
        (report.rounds ≡ 0 + 1)
        × (0 < desk_loop.review_policy.max_review_rounds)
        × (0 + length (reviewer_lanes desk_loop) ≤ desk_loop.safety.max_reviewer_triggers_per_run))
      (review desk_loop waves issue claimed "/work" 0 0 0 at_claim)
review-fresh_example = review-fresh desk_loop waves issue claimed "/work" 0 0 0 at_claim refl

ensure_pr-IsTrusted_example :
    Returns
      (λ ref.
        (some "abc" ≡ some ref.head_sha)
        × ((pr : PullRequest) × Answered desk_loop pr
            × IsTrusted desk_loop "aipro-issue-7" pr
            × (ref.number ≡ pr.number)
            × (ref.head_sha ≡ pr.head_sha)))
      (ensure_pr desk_loop summaries issue claimed "aipro-issue-7" (some "abc") at_claim)
ensure_pr-IsTrusted_example =
    ensure_pr-IsTrusted desk_loop summaries issue "aipro-issue-7" claimed (some "abc") at_claim

saved_desk :
    save_fresh desk_loop issue claimed [] at_claim ≡ (record { stored = some emptied }, ok emptied)
unfolding save_fresh load same_value post_init lookup ◌>>=◌ if◌then◌else◌
saved_desk = refl

save_fresh-saved_example :
    (fresh : WorkflowState) × (s1 : Desk) × (desk_loop.queue.load_state (slug issue) at_claim
      ≡ (s1, ok (some fresh)))
    × (same_owner fresh claimed ≡ true)
    × (is_terminal fresh.phase ≡ false)
    × (emptied ≡ record fresh { extras = []; updated_at = desk_loop.now s1 })
    × (desk_loop.queue.save_state emptied (some fresh.updated_at) s1
        ≡ (record { stored = some emptied }, ok tt))
save_fresh-saved_example = save_fresh-saved desk_loop issue claimed [] at_claim saved_desk

cleanup_terminal_worktree-own_example :
    ((cleanup_terminal_worktree desk_loop issue at_claim).1 ≡ ok tt)
    × ((cleanup_terminal_worktree desk_loop issue at_claim
          ≡ ((desk_loop.queue.load_state (slug issue) at_claim).0, ok tt))
        ⊎ ((x : WorkflowState) × ((desk_loop.queue.load_state (slug issue) at_claim).1
              ≡ ok (some x))
            × (own desk_loop x ≡ true)
            × (is_terminal x.phase ≡ true)
            × (is_cancelled x.phase ≡ false)))
cleanup_terminal_worktree-own_example = cleanup_terminal_worktree-own desk_loop issue at_claim

merged_once : merge_dispositions (reply "f1" ∷ []) (reply "f2" ∷ reply "f1" ∷ []) ≡ ok two_replies
unfolding merge_dispositions find
merged_once = refl

merge_dispositions-replay_example :
    ((more : List FindingDisposition) × (two_replies ≡ (reply "f1" ∷ []) ++ more))
    × (merge_dispositions two_replies (reply "f2" ∷ reply "f1" ∷ []) ≡ ok two_replies)
merge_dispositions-replay_example =
    merge_dispositions-replay (reply "f1" ∷ []) (reply "f2" ∷ reply "f1" ∷ []) merged_once
