-- ===== src/Queue/Examples.antt =====
-- A claim that replaces the claim of an earlier owner, a block that is compacted, and the labels of
-- an issue.
use aipro.Prelude.{
  ℕ, ◌*◌, String, true, false, Option, none, some, List, [], ◌∷◌, ◌++◌, ◌≡◌, ◌↔◌, refl, sym, ap,
  arith, ok, err, block_too_large, contains, any, filter, length, not, ◌&&◌, ◌||◌, ◌==◌, string_eq,
  option_eq, nat_eq, ==-cases, inl, inr, if◌then◌else◌, ◌∙◌,
}
use aipro.Prelude.Dict.{Dict, insert, lookup, without, update, put_opt}
use aipro.Domain.{Value, text, stamp, num, planning, reviewing, minor, opened}
use aipro.Domain.State.{WorkflowState}
use aipro.Queue.Claim.{to_dict, Claim, claim_from_state, reattributed}
use aipro.Config.{GitHubQueueConfig, default_queue_config, lifecycle_labels}
use aipro.Domain.Finding.{ReviewerFinding}
use aipro.Queue.Compaction.{
  threaded, unthreaded, with_findings, embed_chars, fits, drop_threaded, compacted,
}
use aipro.Queue.Fit.{Compacts, Suffixes, compacted-Compacts, compacted_fails_iff}
use aipro.Queue.Labels.{LabelClient, phase_label, sync_labels, apply_phase_labels}
use aipro.Queue.LabelSync.{apply_phase_labels-on}
use aipro.Queue.Attribution.{claim_from_state-reattributed}

abbrev extras_before : Dict Value
extras_before =
    ("host_id", text "old-host")
    ∷ ("claimed_at", stamp 5)
    ∷ ("lease_expires_at", stamp 10)
    ∷ ("branch", text "old-branch")
    ∷ ("rounds", num 2)
    ∷ []

abbrev newer_claim : Claim
newer_claim = record {
  run_id = "r2";
  host_id = "new-host";
  claimed_at = 20;
  lease_expires_at = 30;
  phase = "claiming";
  branch = none;
  worktree = none;
  pr_number = some 4;
  heartbeat_at = some 20;
}

abbrev taken_state : WorkflowState
taken_state = record {
  work_item_id = "acme/app#7";
  run_id = "r2";
  phase = planning;
  round_id = none;
  updated_at = 20;
  terminal_reason = none;
  findings = [];
  dispositions = [];
  archived = [];
  extras = reattributed extras_before newer_claim;
}

claim_from_state-reattributed_example :
    claim_from_state taken_state ≡ ok (record newer_claim { run_id = "r2"; phase = "planning" })
claim_from_state-reattributed_example =
    claim_from_state-reattributed extras_before newer_claim taken_state refl

abbrev remark : String → Option String → ReviewerFinding
remark id thread = record {
  id = id;
  lane = "breaker-reviewer";
  body = "check the bound";
  severity = minor;
  run_id = "r1";
  round_id = "1";
  created_at = 3;
  path = none;
  line = none;
  thread_id = thread;
  line_end = none;
  confidence = none;
  claim = none;
  evidence = [];
  falsification = none;
  reproduction_command = none;
  suggested_fix = none;
  head_sha = none;
  status = opened;
  status_reason = none;
  conflict_group_id = none;
  sources = [];
  extras = [];
}

abbrev small : GitHubQueueConfig
small = record default_queue_config { max_state_block_chars = 300 }

abbrev payload : WorkflowState → ℕ
payload s = 100 * length s.findings

abbrev crowded : WorkflowState
crowded = record taken_state {
  findings = remark "a" (some "t1") ∷ remark "b" none ∷ remark "c" (some "t2") ∷ [];
}

abbrev thinned : WorkflowState
thinned = record crowded { findings = remark "b" none ∷ remark "c" (some "t2") ∷ [] }

compacted-crowded : compacted small payload crowded ≡ ok thinned
unfolding compacted embed_chars drop_threaded any filter reattributed to_dict lookup without update
    put_opt insert contains
compacted-crowded = refl

compacted-Compacts_example : Compacts crowded thinned × (fits small payload thinned ≡ true)
compacted-Compacts_example = compacted-Compacts small payload crowded thinned compacted-crowded

compacted_fails_iff_example :
    (compacted small payload crowded ≡ err block_too_large)
    ↔ (fits small payload crowded ≡ false)
      × Suffixes
          (λ fs. fits small payload (with_findings crowded (unthreaded crowded ++ fs)) ≡ false)
          (threaded crowded)
unfolding any reattributed to_dict lookup without update put_opt insert contains
compacted_fails_iff_example = compacted_fails_iff small payload crowded refl

-- A service with one issue: the list of its labels.
pub contains-filter :
    (m l : String) (ls : List String)
    → contains l (filter (λ k. not (m == k)) ls) ≡ (not (m == l) && contains l ls)
unfolding contains filter
contains-filter m l [] = ground arith
contains-filter m l (k ∷ ls) = elim (==-cases k l) [
  | inl (t, e) ↦ ground (arith, t, ap (λ x. m == x) e, contains-filter m l ls)
  | inr (t, e) ↦ ground (arith, t, contains-filter m l ls)
]

pub contains-cons :
    (m l : String) (ls : List String) → contains l (m ∷ ls) ≡ ((m == l) || contains l ls)
unfolding contains
contains-cons m l ls = refl

abbrev one_issue : LabelClient (List String)
one_issue = record {
  get_labels = λ s n. s;
  add_label = λ s n m. (m ∷ s, ok tt);
  remove_label = λ s n m. (filter (λ k. not (m == k)) s, ok tt);
  added = λ s s' n m l h. sym (ap (λ x. contains l x.0) h) ∙ contains-cons m l s;
  removed = λ s s' n m l h. sym (ap (λ x. contains l x.0) h) ∙ contains-filter m l s;
}

abbrev labels_before : List String
labels_before = "v3-work-enabled" ∷ "v3-work" ∷ "bug" ∷ "v3-work-active" ∷ []

abbrev labels_after : List String
labels_after = "v3-work-review" ∷ "v3-work-enabled" ∷ "bug" ∷ []

apply_phase_labels-run :
    apply_phase_labels one_issue false 7 default_queue_config reviewing labels_before
    ≡ (labels_after, ok tt)
unfolding apply_phase_labels sync_labels phase_label contains filter
apply_phase_labels-run = refl

apply_phase_labels-on_example : contains "bug" labels_after ≡ (
    if contains "bug" (lifecycle_labels default_queue_config)
    then phase_label default_queue_config reviewing == some "bug"
    else contains "bug" labels_before)
apply_phase_labels-on_example =
    apply_phase_labels-on one_issue default_queue_config 7 reviewing labels_before labels_after
      apply_phase_labels-run "bug"
