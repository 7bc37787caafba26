-- ===== src/Scheduler.antt =====
-- src/ai_pr_orchestrator/v3/scheduler.py: `ContinuousForeman`. The policy loop is an interface: what a
-- run of it does to the service, and the phase that it ends in. `fresh_run` is a new run's id.
pub mod Turns
pub mod Assembly
mod Examples
use aipro.Prelude.{
  ℕ, String, Bool, true, false, Option, none, some, List, [], ◌∷◌, not, ◌==◌, string_eq,
  if◌then◌else◌, Result, ok, err, Error, runtime_error,
}
use aipro.Prelude.Dict.{lookup}
use aipro.Domain.{GitHubIssueRef, WorkItemPhase, ci_gating, is_terminal, Value, text, num}
use aipro.Domain.Identity.{slug}
use aipro.Domain.State.{WorkflowState}
use aipro.Foreman.Outcome.{WorkItemOutcome}
use aipro.Queue.Store.{GitHubIssueQueue, chain, load_state}
use aipro.Queue.Lifecycle.{repair_labels, is_claim_stale, reclaim_expired}
use aipro.Queue.Listing.{list_ready, list_active, own_host}

-- `ForemanPolicyLoop`, made for a run.
pub record PolicyLoop (S : Type 0) : Type 0 where
  pub run_work : S → String → GitHubIssueRef → S × Result WorkItemOutcome
  pub resume_work : S → String → GitHubIssueRef → WorkflowState → S × Result WorkItemOutcome

-- The state of the extras as a claim takes it; another JSON type does not occur there.
abbrev pub text_of : Option Value → Option String
text_of (some (text t)) = some t
text_of _ = none

abbrev pub num_of : Option Value → Option ℕ
num_of (some (num n)) = some n
num_of _ = none

-- `outcome.final_phase != "ci_gating"`
abbrev pub waits_for_ci : WorkItemOutcome → Bool
waits_for_ci o = elim o.final_phase [ ci_gating ↦ true | _ ↦ false ]

module _ {S B : Type 0} (q : GitHubIssueQueue S B) (with_label : S → String → List ℕ)
    (loop : PolicyLoop S) (fresh_run : S → String) (now : S → ℕ) where
  abbrev pub run_of : S → Option WorkflowState → String
  run_of s none = fresh_run s
  run_of s (some x) = x.run_id

  -- The loop of `_process_ready`: it stops behind an outcome that does not wait for CI.
  unfoldable pub process_each : List GitHubIssueRef → S → S × Result (List WorkItemOutcome)
  process_each [] s = (s, ok [])
  process_each (i ∷ is) s =
      chain (s, load_state q s (slug i))
        (λ state s1. chain (loop.run_work s1 (run_of s1 state) i) (λ o s2.
          if waits_for_ci o
          then chain (process_each is s2) (λ os s3. (s3, ok (o ∷ os)))
          else (s2, ok (o ∷ []))))

  unfoldable pub process_ready : S → S × Result (List WorkItemOutcome)
  process_ready s = chain (s, list_ready q with_label s) (λ issues s1. process_each issues s1)

  -- A stale claim is taken over by this host.
  abbrev pub renew_stale : GitHubIssueRef → WorkflowState → Bool → S → S × Result WorkflowState
  renew_stale issue x false s = (s, ok x)
  renew_stale issue x true s =
      reclaim_expired q s issue x x.run_id (text_of (lookup "branch" x.extras))
        (text_of (lookup "worktree" x.extras)) (num_of (lookup "pr_number" x.extras)) (now s)

  abbrev pub resume_state : GitHubIssueRef → WorkflowState → S → S × Result (List WorkItemOutcome)
  resume_state issue x s =
      if is_terminal x.phase
      then chain (repair_labels q s issue (some x)) (λ u s1. (s1, ok []))
      else chain (s, is_claim_stale q x (now s))
          (λ stale s1. chain (renew_stale issue x stale s1) (λ y s2.
            if own_host q (lookup "host_id" y.extras)
            then chain (loop.resume_work s2 y.run_id issue y) (λ o s3. (s3, ok (o ∷ [])))
            else (s2, ok [])))

  abbrev pub resume_loaded :
      GitHubIssueRef → Option WorkflowState → S → S × Result (List WorkItemOutcome)
  resume_loaded issue none s = (s, err runtime_error)
  resume_loaded issue (some x) s = resume_state issue x s

  -- `_resume`
  unfoldable pub resume : S → GitHubIssueRef → S × Result (List WorkItemOutcome)
  resume s issue = chain (s, load_state q s (slug issue)) (λ state s1. resume_loaded issue state s1)

  abbrev pub step_on : List GitHubIssueRef → S → S × Result (List WorkItemOutcome)
  step_on [] s = process_ready s
  step_on (i ∷ []) s = resume s i
  step_on (i ∷ j ∷ is) s = (s, err runtime_error)

  unfoldable pub step : S → S × Result (List WorkItemOutcome)
  step s = chain (s, list_active q with_label s) (λ active s1. step_on active s1)
