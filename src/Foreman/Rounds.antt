-- ===== src/Foreman/Rounds.antt =====
-- src/ai_pr_orchestrator/v3/foreman.py: the review rounds, their limits and their reports. How a wave
-- of reviewers is dispatched and its results are collected is an interface. A reason for an
-- escalation stands without the values that the source puts into its text.
use aipro.Prelude.{
  ℕ, ◌+◌, String, Bool, true, false, Option, none, some, List, [], ◌∷◌, map, filter, not, ◌||◌,
  ◌==◌, string_eq, if◌then◌else◌, Result, ok, is_some, err, key_error, type_error,
  foreman_escalation, ◌>>=◌,
}
use aipro.Domain.{
  GitHubIssueRef, WorkItemPhase, reviewing, Value, null, num, text, arr, obj, Items, nil, cons,
  Fields, end, entry,
}
use aipro.Domain.Finding.{ReviewerFinding}
use aipro.Domain.State.{WorkflowState}
use aipro.Foreman.Act.{Act}
use aipro.Foreman.Extras.{get_field}

-- `_RoundReport`
pub record RoundReport : Type 0 where
  pub remaining : List ReviewerFinding
  pub rounds : ℕ
  pub stagnant_rounds : ℕ
  pub triggers : ℕ
  pub head_sha : String

-- What a wave leaves: the state, the wave with its receipts, the findings that are open, whether
-- the wave had findings or decisions, its failures, the error of its lease heartbeat, its seats and
-- its signature.
pub record WaveResult : Type 0 where
  pub state : WorkflowState
  pub wave : Fields
  pub remaining : List ReviewerFinding
  pub had_signal : Bool
  pub failures : List String
  pub heartbeat_error : Option String
  pub seats : ℕ
  pub signature : String

pub record ReviewWaves (S : Type 0) : Type 0 where
  -- `_read_issue_body`
  pub read_issue_body : GitHubIssueRef → Act S String
  -- `_validate_recovered_wave`, and the retirement of the wave's sessions and checkouts
  pub validate_recovered : Fields → WorkflowState → String → String → Act S (Unit {0})
  pub retire : Fields → Act S (Unit {0})
  pub conduct :
      GitHubIssueRef
      → WorkflowState
      → String
      → String
      → String
      → List String
      → Option Fields
      → Act S WaveResult
  -- `_cleanup_review_results`
  pub cleanup : Fields → Act S (List String)

abbrev pub text_items : List String → Items
text_items [] = nil
text_items (t ∷ ts) = cons (text t) (text_items ts)

abbrev pub holds_item : String → Items → Bool
holds_item t nil = false
holds_item t (cons v vs) = elim v [ text s ↦ s == t | _ ↦ false ] || holds_item t vs

abbrev pub append_item : Items → String → Items
append_item nil t = cons (text t) nil
append_item (cons v vs) t = cons v (append_item vs t)

-- `extras.get(k, [])`, checked to be a list
abbrev pub history : String → Option Value → Result Items
history reason none = ok nil
history reason (some (arr xs)) = ok xs
history reason (some v) = err (foreman_escalation reason)

-- `wave["report"] = {...}`
unfoldable pub report_to_dict : RoundReport → Fields
report_to_dict r = entry "remaining" (arr (text_items (map (λ f. f.id) r.remaining))) (
    entry "rounds" (num r.rounds) (
      entry "stagnant_rounds" (num r.stagnant_rounds)
        (entry "triggers" (num r.triggers) (entry "head_sha" (text r.head_sha) end))))

abbrev pub item_num : Option Value → Result ℕ
item_num none = err key_error
item_num (some (num n)) = ok n
item_num (some v) = err type_error

abbrev pub item_text : Option Value → Result String
item_text none = err key_error
item_text (some (text t)) = ok t
item_text (some v) = err type_error

abbrev pub item_items : Option Value → Result Items
item_items none = err key_error
item_items (some (arr xs)) = ok xs
item_items (some v) = err type_error

-- The report of `_recovered_review_report`
unfoldable pub report_from_dict : WorkflowState → Fields → Result RoundReport
report_from_dict state fs = do
  ids ← item_items (get_field "remaining" fs)
  rounds ← item_num (get_field "rounds" fs)
  stagnant ← item_num (get_field "stagnant_rounds" fs)
  triggers ← item_num (get_field "triggers" fs)
  head_sha ← item_text (get_field "head_sha" fs)
  ok (record {
    remaining = filter (λ f. holds_item f.id ids) state.findings;
    rounds = rounds;
    stagnant_rounds = stagnant;
    triggers = triggers;
    head_sha = head_sha;
  })

abbrev pub optional_fields : Option Value → Result (Option Fields)
optional_fields none = ok none
optional_fields (some v) = elim v [ null ↦ ok none | obj fs ↦ ok (some fs) | _ ↦ err type_error ]

-- `waves.get(state.round_id)`, of a state in review
abbrev pub saved_wave : Fields → Option String → Result (Option Fields)
saved_wave waves none = ok none
saved_wave waves (some id) = optional_fields (get_field id waves)

-- `state.round_id in waves`
abbrev pub has_wave : Fields → Option String → Bool
has_wave waves none = false
has_wave waves (some id) = is_some (get_field id waves)

abbrev pub is_reviewing : WorkItemPhase → Bool
is_reviewing reviewing = true
is_reviewing _ = false

-- `stagnant_rounds + 1 if signature in seen or not had_signal else 0`
abbrev pub stagnant_after : ℕ → String → Items → Bool → ℕ
stagnant_after stagnant signature seen had_signal =
    if holds_item signature seen || not had_signal then stagnant + 1 else 0

abbrev pub round_key : Option String → String
round_key none = "null"
round_key (some id) = id
