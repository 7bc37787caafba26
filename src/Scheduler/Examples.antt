-- ===== src/Scheduler/Examples.antt =====
-- Witnesses for the scheduler, on the service of the queue's examples.
use aipro.Prelude.{
  ℕ, String, true, List, [], ◌∷◌, contains, find, filter, any, string_eq, nat_eq, if◌then◌else◌, ok,
  ◌≡◌, ◌⊎◌, refl,
}
use aipro.Prelude.Dict.{lookup}
use aipro.Domain.{GitHubIssueRef, ci_gating}
use aipro.Domain.State.{WorkflowState}
use aipro.Queue.Claim.{claim_from_state, from_dict}
use aipro.Queue.Store.{load_state, issue_ref, state_comment}
use aipro.Queue.Lifecycle.{is_claim_stale}
use aipro.Queue.Listing.{list_active, under_way, sorted, once, insert_number, own_host}
use aipro.Queue.LifecycleExamples.{Service, queue, issue, after_claim}
use aipro.Foreman.Outcome.{WorkItemOutcome, ended}
use aipro.Scheduler.{PolicyLoop, resume, step}
use aipro.Scheduler.Turns.{OneTurn, step-OneTurn, resume-own_host}

abbrev pub issue_with : Service → String → List ℕ
issue_with s l = if contains l s.names then 7 ∷ [] else []

abbrev gated : WorkItemOutcome
gated = ended issue ci_gating "CI checks pending"

abbrev to_the_gate : PolicyLoop Service
to_the_gate = record {
  run_work = λ s run i. (s, ok gated);
  resume_work = λ s run i x. (s, ok gated);
}

abbrev pub new_run : Service → String
new_run s = "r9"

abbrev pub clock : Service → ℕ
clock s = 20

resumed :
    resume queue issue_with to_the_gate new_run clock after_claim issue
    ≡ (after_claim, ok (gated ∷ []))
unfolding resume load_state issue_ref state_comment find filter is_claim_stale claim_from_state
    from_dict any lookup contains
resumed = refl

stepped :
    step queue issue_with to_the_gate new_run clock after_claim ≡ (after_claim, ok (gated ∷ []))
unfolding step list_active under_way sorted once insert_number resume load_state issue_ref
    state_comment find filter is_claim_stale claim_from_state from_dict any lookup contains
stepped = refl

step-OneTurn_example :
    ((list_active queue issue_with after_claim ≡ ok []) × OneTurn (gated ∷ []))
    ⊎ ((i : GitHubIssueRef) × (list_active queue issue_with after_claim ≡ ok (i ∷ []))
        × (resume queue issue_with to_the_gate new_run clock after_claim i
            ≡ (after_claim, ok (gated ∷ []))))
step-OneTurn_example =
    step-OneTurn queue issue_with to_the_gate new_run clock after_claim after_claim (gated ∷ [])
      stepped

abbrev no_more : List WorkItemOutcome
no_more = []

resume-own_host_example :
    (no_more ≡ [])
    × ((u : Service) × (x : WorkflowState) × (own_host queue (lookup "host_id" x.extras) ≡ true)
        × (to_the_gate.resume_work u x.run_id issue x ≡ (after_claim, ok gated)))
resume-own_host_example =
    resume-own_host queue issue_with to_the_gate new_run clock after_claim after_claim issue gated
      [] resumed
