-- ===== src/Findings.antt =====
-- src/ai_pr_orchestrator/v3/findings.py: the registry of findings and the dispositions that settle
-- them. Whether `str.strip` leaves nothing of a text is a parameter.
pub mod Settlement
pub mod Compact
pub mod Archive
mod Examples
use Prim.Native.String.{◌++◌ as join}
use aipro.Prelude.{
  String, Bool, true, false, Option, none, some, List, [], ◌∷◌, find, not, ◌&&◌, ◌==◌, string_eq,
  option_eq, is_some, if◌then◌else◌, Result, ok, err, domain_error, ◌>>=◌, ◌>>◌, raise_if,
}
use aipro.Domain.{
  FindingStatus, opened, accepted, rejected, deferred, archived, DispositionAction, fix,
  reject_wont_fix, reply_deferred, already_addressed, escalate_human, rebut, accept, truthy,
}
use aipro.Domain.State.{or_old}
use aipro.Domain.Finding.{ReviewerFinding, FindingDisposition, ArchivedFinding}

pub record FindingRegistry : Type 0 where
  pub findings : List ReviewerFinding
  pub archived : List ArchivedFinding
  pub require_coder_reply_before_resolve : Bool

-- ACTION_TO_STATUS, and the special case of `rebut`
unfoldable pub new_status : DispositionAction → FindingStatus
new_status fix = accepted
new_status reject_wont_fix = rejected
new_status already_addressed = rejected
new_status reply_deferred = deferred
new_status escalate_human = deferred
new_status accept = accepted
new_status rebut = opened

abbrev pub is_open : FindingStatus → Bool
is_open opened = true
is_open _ = false

-- `status in ("open", "deferred")`
abbrev pub is_unsettled : FindingStatus → Bool
is_unsettled opened = true
is_unsettled deferred = true
is_unsettled _ = false

abbrev pub action_name : DispositionAction → String
action_name fix = "fix"
action_name reject_wont_fix = "reject_wont_fix"
action_name reply_deferred = "reply_deferred"
action_name already_addressed = "already_addressed"
action_name escalate_human = "escalate_human"
action_name rebut = "rebut"
action_name accept = "accept"

-- `f"{action}: {rationale}"`
abbrev pub reason : DispositionAction → String → String
reason action rationale = join (action_name action) (join ": " rationale)

-- `thread_id is not None and finding.thread_id and thread_id != finding.thread_id`
abbrev pub mismatched : Option String → Option String → Bool
mismatched thread_id own = is_some thread_id && truthy own && not (thread_id == own)

abbrev pub found : Option ReviewerFinding → Result ReviewerFinding
found none = err domain_error
found (some f) = ok f

-- `self.findings[index] = updated`, at the first finding of the id
unfoldable pub replace_first :
    String → ReviewerFinding → List ReviewerFinding → List ReviewerFinding
replace_first id updated [] = []
replace_first id updated (f ∷ fs) =
    let rest = replace_first id updated fs in if f.id == id then updated ∷ fs else f ∷ rest

module _ (blank : String → Bool) where
  abbrev pub no_text : Option String → Bool
  no_text none = true
  no_text (some s) = blank s

  -- `replace(finding, status=..., status_reason=...)`: the constructor checks the finding again.
  -- The fields that are not replaced passed its checks when the finding was made.
  unfoldable pub with_status : ReviewerFinding → FindingStatus → String → Result ReviewerFinding
  with_status f status status_reason = do
    raise_if (not (is_open status) && blank status_reason) domain_error
    raise_if (is_open status) domain_error
    ok (record f { status = status; status_reason = some status_reason })

  -- The rest of `apply_disposition`, for the finding that was found.
  unfoldable pub settle_found :
      FindingRegistry
      → ReviewerFinding
      → String
      → DispositionAction
      → String
      → String
      → Option String
      → Option String
      → Result (FindingRegistry × ReviewerFinding × FindingDisposition)
  settle_found r f finding_id action rationale decided_by thread_id reply_body = do
    raise_if (not (is_unsettled f.status)) domain_error
    raise_if (mismatched thread_id f.thread_id) domain_error
    raise_if
        (r.require_coder_reply_before_resolve
          && truthy (or_old thread_id f.thread_id)
          && no_text reply_body)
        domain_error
    raise_if (blank rationale) domain_error
    updated ← with_status f (new_status action) (reason action rationale)
    ok (
      record r { findings = replace_first finding_id updated r.findings },
      updated,
      record {
        finding_id = finding_id;
        action = action;
        rationale = rationale;
        decided_by = decided_by;
        thread_id = or_old thread_id f.thread_id;
        reply_body = reply_body;
        run_id = none;
        round_id = none;
        response_to_round_id = none;
      },
    )

  unfoldable pub apply_disposition :
      FindingRegistry
      → String
      → DispositionAction
      → String
      → String
      → Option String
      → Option String
      → Result (FindingRegistry × ReviewerFinding × FindingDisposition)
  apply_disposition r finding_id action rationale decided_by thread_id reply_body = do
    f ← found (find (λ g. g.id == finding_id) r.findings)
    settle_found r f finding_id action rationale decided_by thread_id reply_body
