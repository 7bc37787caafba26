-- ===== src/Domain/Transitions.antt =====
-- What the constructor of `WorkflowState` and `transition` guarantee.
use aipro.Prelude.{
  ℕ, String, Option, ◌≡◌, ◌↔◌, ◌⊎◌, true, false, arith, ok, err, domain_error, is_some,
}
use aipro.Domain.{WorkItemPhase, is_terminal, truthy}
use aipro.Domain.State.{WorkflowState, post_init, transition}

-- A reason is recorded exactly in the terminal phases, and it is not empty there.
pub record IsValid (s : WorkflowState) : Type 0 where
  pub reasoned : truthy s.terminal_reason ≡ is_terminal s.phase
  pub recorded : is_some s.terminal_reason ≡ is_terminal s.phase

-- The constructor accepts a state exactly when it is valid, and stores it as it is given.
pub post_init_iff : (s : WorkflowState) → (post_init s ≡ ok s) ↔ IsValid s
unfolding post_init
post_init_iff s = (λ h. ground arith, λ v. ground arith)

-- What a transition keeps and what it sets.
pub record Moves (now : ℕ) (s t : WorkflowState) (phase : WorkItemPhase) (reason : Option String)
    : Type 0 where
  pub valid : IsValid t
  pub arrived : t.phase ≡ phase
  pub stamped : t.updated_at ≡ now
  pub reason_kept : t.terminal_reason ≡ reason
  pub same_item : t.work_item_id ≡ s.work_item_id
  pub same_run : t.run_id ≡ s.run_id
  pub same_findings : t.findings ≡ s.findings
  pub same_dispositions : t.dispositions ≡ s.dispositions
  pub same_archive : t.archived ≡ s.archived
  pub same_extras : t.extras ≡ s.extras

-- A transition that returns gives a valid state in the phase asked for, with the reason asked for,
-- stamped with the time, and with the identity, the findings, the dispositions, the archive and the
-- extras that it had before.
pub transition-Moves :
    (now : ℕ) (s : WorkflowState) (phase : WorkItemPhase) (round reason : Option String)
    {t : WorkflowState}
    → transition now s phase round reason ≡ ok t
    → Moves now s t phase reason
unfolding transition
transition-Moves now s phase round reason h = ground arith

-- A transition into a terminal phase fails exactly when no reason is given, and one into another
-- phase exactly when a reason is given.
pub transition_fails_iff :
    (now : ℕ) (s : WorkflowState) (phase : WorkItemPhase) (round reason : Option String)
    → (transition now s phase round reason ≡ err domain_error) ↔ (
        (is_terminal phase ≡ true) × (truthy reason ≡ false)
        ⊎ (is_terminal phase ≡ false) × (is_some reason ≡ true))
unfolding transition
transition_fails_iff now s phase round reason = (λ h. ground arith, λ v. ground arith)
