-- ===== src/Domain.antt =====
-- src/ai_pr_orchestrator/v3/domain.py: the vocabulary of the policy engine. The closed sets of
-- words (`Literal` types with their `VALID_...` sets) are data types, read from text by `phase_of`.
pub mod Finding
pub mod Identity
pub mod Decimal
pub mod State
pub mod Transitions
mod Examples
use aipro.Prelude.{ℕ, String, Bool, true, false, Option, none, some, ◌==◌, string_eq, if◌then◌else◌}

pub data WorkItemPhase : Type 0 where
  queued claiming planning coding reviewing ci_gating updating_pr : WorkItemPhase
  escalated done failed cancelled : WorkItemPhase

-- Membership in VALID_PHASES: the phase that a text names, if it names one.
unfoldable pub phase_of : String → Option WorkItemPhase
phase_of s =
    if s == "queued"
    then some queued
    else if s == "claiming"
    then some claiming
    else if s == "planning"
    then some planning
    else if s == "coding"
    then some coding
    else if s == "reviewing"
    then some reviewing
    else if s == "ci_gating"
    then some ci_gating
    else if s == "updating_pr"
    then some updating_pr
    else if s == "escalated"
    then some escalated
    else if s == "done"
    then some done
    else if s == "failed"
    then some failed
    else if s == "cancelled"
    then some cancelled
    else none

-- Membership in TERMINAL_PHASES, which is PHASES_REQUIRING_REASON too.
abbrev pub is_terminal : WorkItemPhase → Bool
is_terminal done = true
is_terminal failed = true
is_terminal escalated = true
is_terminal cancelled = true
is_terminal _ = false

abbrev pub is_queued : WorkItemPhase → Bool
is_queued queued = true
is_queued _ = false

pub data AgentLaneRole : Type 0 where
  foreman worker reviewer : AgentLaneRole

pub data Severity : Type 0 where
  info minor major blocker : Severity

-- `opened` is the status "open".
pub data FindingStatus : Type 0 where
  opened accepted rejected deferred archived : FindingStatus

pub data EvidenceKind : Type 0 where
  file snippet thread command log : EvidenceKind

pub data DispositionAction : Type 0 where
  fix reject_wont_fix reply_deferred already_addressed escalate_human rebut accept :
      DispositionAction

-- A value of `extras`: JSON, with an ISO timestamp as the instant that it denotes (microseconds,
-- UTC), and numbers that are whole.
mutual
  pub data Value : Type 0 where
    null : Value
    flag : Bool → Value
    num : ℕ → Value
    text : String → Value
    stamp : ℕ → Value
    arr : Items → Value
    obj : Fields → Value

  pub data Items : Type 0 where
    nil : Items
    cons : Value → Items → Items

  pub data Fields : Type 0 where
    end : Fields
    entry : String → Value → Fields → Fields

-- The truth of an optional text: neither None nor empty.
abbrev pub truthy : Option String → Bool
truthy none = false
truthy (some s) = if s == "" then false else true

pub record GitHubIssueRef : Type 0 where
  pub owner : String
  pub repo : String
  pub number : ℕ
