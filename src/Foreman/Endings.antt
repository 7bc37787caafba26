-- ===== src/Foreman/Endings.antt =====
-- src/ai_pr_orchestrator/v3/foreman.py: the endings of a work item, and those at the CI gate.
use aipro.Prelude.{
  not-eq-true, ℕ, String, Bool, true, false, Option, none, some, ◌≡◌, ◌⊎◌, refl, inl, inr,
  Bool-cases, is_empty, ◌&&◌, ◌==◌, string_eq,
}
use aipro.Domain.{GitHubIssueRef, WorkItemPhase, done, ci_gating, escalated, cancelled, Value}
use aipro.Domain.State.{WorkflowState}
use aipro.Interfaces.{GateDecision}
use aipro.Foreman.Outcome.{WorkItemOutcome}
use aipro.Foreman.Act.{Returns, value, bind, bind_post, if_post}
use aipro.Foreman.Services.{ForemanPolicyLoop}
use aipro.Foreman.Claims.{
  cancelled_outcome, outcome_of_cancelled, escalate, escalate_unless, escalate_or_cancel, fail,
  load,
}
use aipro.Foreman.Gate.{
  Gated, settled, repair, settle_gate, pending_ci, wait_since, prepare_ci_repair, wait,
  escalated_gate,
}

-- A gate that passed, and one that has checks pending.
abbrev pub Passed : Option GateDecision → Type 0
Passed none = ⊥
Passed (some d) = d.passed ≡ true

abbrev pub Pending : Option GateDecision → Type 0
Pending none = ⊥
Pending (some d) = (d.passed ≡ false) × (is_empty d.pending_checks ≡ false)

-- What the final phase of an outcome stands for.
abbrev pub EndsIn : WorkItemPhase → WorkItemOutcome → Type 0
EndsIn done o = Passed o.gate ⊎ (o.reason ≡ "developer reported no changes")
EndsIn ci_gating o = Pending o.gate
EndsIn escalated o = o.is_escalated ≡ true
EndsIn aipro.Domain.failed o =
    o.reason ≡ "policy violation: lane modified files under .github/workflows/"
EndsIn cancelled o = Unit {0}
EndsIn phase o = ⊥

abbrev pub Justified : WorkItemOutcome → Type 0
Justified o = EndsIn o.final_phase o

abbrev pub IfSome : Option WorkItemOutcome → Type 0
IfSome none = Unit {0}
IfSome (some o) = Justified o

abbrev pub IfSettled : Gated → Type 0
IfSettled (settled o) = Justified o
IfSettled (repair state findings) = Unit {0}

module _ {S : Type 0} (f : ForemanPolicyLoop S) (issue : GitHubIssueRef) where
  outcome_of_cancelled-IfSome :
      (state : Option WorkflowState) → IfSome (outcome_of_cancelled f issue state)
  outcome_of_cancelled-IfSome none = tt
  outcome_of_cancelled-IfSome (some x) =
      elim (Bool-cases (x.run_id == f.run_id && aipro.Foreman.Claims.is_cancelled x.phase)) [
        | inl e ↦ rw e tt
        | inr e ↦ rw e tt
      ]

  pub cancelled_outcome-IfSome : (s : S) → Returns IfSome (cancelled_outcome f issue s)
  unfolding cancelled_outcome
  cancelled_outcome-IfSome s = bind _ _ s (λ state s1. value (outcome_of_cancelled-IfSome state))

  escalate_or_cancel-Justified :
      (state : WorkflowState) (reason : String) (revoked : Option String) (s : S)
      → Returns Justified (escalate_or_cancel f issue state reason revoked s)
  escalate_or_cancel-Justified state reason none s = bind _ _ s (λ x s1. value refl)
  escalate_or_cancel-Justified state reason (some t) s = bind _ _ s (λ x s1. value tt)

  escalate_unless-Justified :
      (state : WorkflowState) (reason : String) (o : Option WorkItemOutcome) (s : S)
      → IfSome o
      → Returns Justified (escalate_unless f issue state reason o s)
  escalate_unless-Justified state reason (some o) s h = value h
  escalate_unless-Justified state reason none s h =
      bind _ _ s
        (λ x s1. bind _ _ s1 (λ revoked s2. escalate_or_cancel-Justified x reason revoked s2))

  pub escalate-Justified :
      (state : WorkflowState) (reason : String) (s : S)
      → Returns Justified (escalate f issue state reason s)
  unfolding escalate
  escalate-Justified state reason s =
      bind_post _ _ s (cancelled_outcome-IfSome s)
        (λ o s1 h. escalate_unless-Justified state reason o s1 h)

  escalated_gate-IfSettled :
      (state : WorkflowState) (reason : String) (s : S)
      → Returns IfSettled (escalated_gate f issue state reason s)
  escalated_gate-IfSettled state reason s =
      bind_post _ _ s (escalate-Justified state reason s) (λ o s1 h. value h)

  module _ (d : GateDecision) (rounds invocations : ℕ) where
    module _ (failing : d.passed ≡ false) (pending : is_empty d.pending_checks ≡ false) where
      wait-IfSettled :
          (state : WorkflowState) (s : S)
          → Returns IfSettled (wait f issue state d rounds invocations s)
      wait-IfSettled state s = bind _ _ s (λ x s1. value (failing, pending))

      wait_since-IfSettled :
          (state : WorkflowState) (now : ℕ) (v : Option Value) (s : S)
          → Returns IfSettled (wait_since f issue state d rounds invocations now v s)
      wait_since-IfSettled state now none s = bind _ _ s (λ x s1. wait-IfSettled x s1)
      wait_since-IfSettled state now (some v) s = bind _ _ s (λ started s1.
          if_post _ _ _ s1 (λ e. escalated_gate-IfSettled state _ s1)
            (λ e. wait-IfSettled state s1))

      pending_ci-IfSettled :
          (state : WorkflowState) (s : S)
          → Returns IfSettled (pending_ci f issue state d rounds invocations s)
      unfolding pending_ci
      pending_ci-IfSettled state s = bind _ _ s (λ now s1. wait_since-IfSettled state now _ s1)

  prepare_ci_repair-IfSettled :
      (state : WorkflowState) (d : GateDecision) (detail : String) (rounds stagnant : ℕ) (s : S)
      → Returns IfSettled (prepare_ci_repair f issue state d detail rounds stagnant s)
  unfolding prepare_ci_repair
  prepare_ci_repair-IfSettled state d detail rounds stagnant s =
      if_post _ _ _ s (λ e. escalated_gate-IfSettled state _ s)
        (λ e.
          if_post _ _ _ s (λ e. escalated_gate-IfSettled state _ s)
            (λ e.
              if_post _ _ _ s (λ e. escalated_gate-IfSettled state _ s)
                (λ e. bind _ _ s (λ x s1. bind _ _ s1 (λ now s2. value tt)))))

  pub settle_gate-IfSettled :
      (state : WorkflowState) (d : GateDecision) (detail : String) (rounds stagnant invocations : ℕ)
      (resume_at_gate : Bool) (s : S)
      → Returns IfSettled
          (settle_gate f issue state d detail rounds stagnant invocations resume_at_gate s)
  unfolding settle_gate
  settle_gate-IfSettled state d detail rounds stagnant n gate s =
      if_post _ _ _ s (λ e. bind _ _ s (λ x s1. bind _ _ s1 (λ y s2. value (inl e))))
        (λ e.
          if_post _ _ _ s (λ p. pending_ci-IfSettled d rounds n e (not-eq-true _ p) state s)
            (λ p.
              if_post _ _ _ s (λ g. escalated_gate-IfSettled state _ s)
                (λ g. prepare_ci_repair-IfSettled state d detail rounds stagnant s)))
