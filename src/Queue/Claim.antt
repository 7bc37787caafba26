-- ===== src/Queue/Claim.antt =====
-- src/ai_pr_orchestrator/v3/queue.py: the claim on a work item, and its place in `extras`.
use aipro.Prelude.{
  ℕ, String, Bool, Option, none, some, List, [], ◌∷◌, Result, ok, err, key_error, type_error,
  no_active_claim, ◌>>=◌, ◌>>◌, raise_if, ltb, any, not, string_eq,
}
use aipro.Prelude.Dict.{Dict, lookup, has, without, update, put_opt}
use aipro.Domain.{
  WorkItemPhase, queued, claiming, planning, coding, reviewing, ci_gating, updating_pr, escalated,
  done, failed, cancelled, Value, null, num, text, stamp,
}
use aipro.Domain.State.{WorkflowState}

-- `phase: str` of a claim is free text; a state's phase has the text that the source spells.
abbrev pub phase_name : WorkItemPhase → String
phase_name queued = "queued"
phase_name claiming = "claiming"
phase_name planning = "planning"
phase_name coding = "coding"
phase_name reviewing = "reviewing"
phase_name ci_gating = "ci_gating"
phase_name updating_pr = "updating_pr"
phase_name escalated = "escalated"
phase_name done = "done"
phase_name failed = "failed"
phase_name cancelled = "cancelled"

pub record Claim : Type 0 where
  pub run_id : String
  pub host_id : String
  pub claimed_at : ℕ
  pub lease_expires_at : ℕ
  pub phase : String
  pub branch : Option String
  pub worktree : Option String
  pub pr_number : Option ℕ
  pub heartbeat_at : Option ℕ

abbrev pub is_stale : Claim → ℕ → Bool
is_stale c now = ltb c.lease_expires_at now

abbrev pub required_claim_keys : List String
required_claim_keys = "host_id" ∷ "claimed_at" ∷ "lease_expires_at" ∷ []

abbrev pub claim_attribution_keys : List String
claim_attribution_keys =
    "host_id" ∷ "claimed_at" ∷ "lease_expires_at" ∷ "heartbeat_at" ∷ "branch" ∷ "worktree"
    ∷ "pr_number" ∷ "run_id" ∷ "phase" ∷ []

unfoldable pub to_dict : Claim → Dict Value
to_dict c =
    let required : Dict Value =
      ("host_id", text c.host_id)
      ∷ ("claimed_at", stamp c.claimed_at)
      ∷ ("lease_expires_at", stamp c.lease_expires_at)
      ∷ [] in
    let with_branch = put_opt "branch" text c.branch required in
    let with_worktree = put_opt "worktree" text c.worktree with_branch in
    let with_pr = put_opt "pr_number" num c.pr_number with_worktree in
    put_opt "heartbeat_at" stamp c.heartbeat_at with_pr

-- Reading a value at the type that the writer gave it. Another JSON type is a `type_error`.
abbrev pub as_text : Value → Result String
as_text (text s) = ok s
as_text _ = err type_error

abbrev pub as_stamp : Value → Result ℕ
as_stamp (stamp n) = ok n
as_stamp _ = err type_error

abbrev pub as_num : Value → Result ℕ
as_num (num n) = ok n
as_num _ = err type_error

-- `data[k]`
abbrev pub item : Option Value → Result Value
item none = err key_error
item (some v) = ok v

-- `data.get(k)`, where a missing key and null are None
abbrev pub optional : {A : Type 0} → (Value → Result A) → Option Value → Result (Option A)
optional f none = ok none
optional f (some null) = ok none
optional f (some v) = do a ← f v; ok (some a)

-- `data.get(k, default)`
abbrev pub text_or : String → Option Value → Result String
text_or default none = ok default
text_or default (some v) = as_text v

unfoldable pub from_dict : Dict Value → Result Claim
from_dict d = do
  run_id ← text_or "" (lookup "run_id" d)
  host ← item (lookup "host_id" d)
  host_id ← as_text host
  claimed ← item (lookup "claimed_at" d)
  claimed_at ← as_stamp claimed
  lease ← item (lookup "lease_expires_at" d)
  lease_expires_at ← as_stamp lease
  phase ← text_or "claiming" (lookup "phase" d)
  branch ← optional as_text (lookup "branch" d)
  worktree ← optional as_text (lookup "worktree" d)
  pr_number ← optional as_num (lookup "pr_number" d)
  heartbeat_at ← optional as_stamp (lookup "heartbeat_at" d)
  ok (record {
    run_id = run_id;
    host_id = host_id;
    claimed_at = claimed_at;
    lease_expires_at = lease_expires_at;
    phase = phase;
    branch = branch;
    worktree = worktree;
    pr_number = pr_number;
    heartbeat_at = heartbeat_at;
  })

unfoldable pub claim_from_state : WorkflowState → Result Claim
claim_from_state s = do
  raise_if (any (λ k. not (has k s.extras)) required_claim_keys) no_active_claim
  claim ← from_dict s.extras
  ok (record claim { run_id = s.run_id; phase = phase_name s.phase })

-- The extras of a new owner's state: the attribution of the old claim is removed, and that of the
-- new one is merged in (`_save_claim` and `reclaim_expired`).
unfoldable pub reattributed : Dict Value → Claim → Dict Value
reattributed extras claim = update (without claim_attribution_keys extras) (to_dict claim)
