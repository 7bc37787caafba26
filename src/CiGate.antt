-- ===== src/CiGate.antt =====
-- src/ai_pr_orchestrator/v3/ci_gate.py: the CI gate over the check-runs and commit statuses of a
-- head. What the GitHub client returns for the head is an argument. `detail`, with its excerpts of
-- the check summaries, is a text for the operator and is left out.
pub mod Sets
pub mod Verdict
pub mod Pending
mod Examples
use Prim.Native.String.{compare}
use Prim.Native.Nat.{Ordering}
use aipro.Prelude.{
  String, Bool, true, false, Option, none, some, List, [], ◌∷◌, ◌++◌, filter, not, ◌&&◌, ◌||◌, ◌==◌,
  string_eq, if◌then◌else◌, contains, is_empty, Result,
}
use aipro.Prelude.Dict.{Dict, has, insert}
use aipro.Config.{CiPolicyConfig}
use aipro.Interfaces.{GateDecision, gate_decision}

pub record CheckRun : Type 0 where
  pub name : String
  pub status : String
  pub conclusion : Option String

abbrev pub completed : String
completed = "completed"

-- `conclusion in _PASSED_CONCLUSIONS`, and the stricter test for commit statuses
abbrev pub run_passed : Option String → Bool
run_passed none = false
run_passed (some c) = (c == "success") || ((c == "neutral") || (c == "skipped"))

abbrev pub status_passed : Option String → Bool
status_passed none = false
status_passed (some c) = c == "success"

pub record Tally : Type 0 where
  pub by_name : Dict (Option String)
  pub failed : List String
  pub pending : List String

-- One round of either loop of `evaluate`, by the test that the loop makes of the conclusion.
unfoldable pub count_report : (Option String → Bool) → Tally → CheckRun → Tally
count_report accepts t r =
    if not (r.status == completed)
    then record t { pending = t.pending ++ r.name ∷ [] }
    else if not (accepts r.conclusion)
    then record t { failed = t.failed ++ r.name ∷ [] }
    else record t { by_name = insert r.name r.conclusion t.by_name }

unfoldable pub count_reports : (Option String → Bool) → Tally → List CheckRun → Tally
count_reports accepts t [] = t
count_reports accepts t (r ∷ rs) = count_reports accepts (count_report accepts t r) rs

-- `pending.extend(name for name in missing if name not in pending and name not in failed)`: the
-- generator sees the names that were appended before.
unfoldable pub extend_pending : List String → List String → List String → List String
extend_pending failed pending [] = pending
extend_pending failed pending (n ∷ ns) =
    extend_pending failed
      (if contains n pending || contains n failed then pending else pending ++ n ∷ []) ns

-- `tuple(sorted(set(names)))`
unfoldable pub add_sorted : String → List String → List String
add_sorted n [] = n ∷ []
add_sorted n (m ∷ ms) = elim (compare n m) [
  | Ordering.lt ↦ n ∷ m ∷ ms
  | Ordering.eq ↦ m ∷ ms
  | Ordering.gt ↦ m ∷ add_sorted n ms
]

unfoldable pub sorted_set : List String → List String
sorted_set [] = []
sorted_set (n ∷ ns) = add_sorted n (sorted_set ns)

-- `tuple(dict.fromkeys(names))`: the first of each name
unfoldable pub first_of_each : List String → List String → List String
first_of_each seen [] = []
first_of_each seen (n ∷ ns) =
    let again = first_of_each seen ns in
    let fresh = first_of_each (n ∷ seen) ns in if contains n seen then again else n ∷ fresh

abbrev no_reports : Tally
no_reports = record { by_name = []; failed = []; pending = [] }

unfoldable pub tally : List CheckRun → List CheckRun → Tally
tally runs statuses =
    count_reports status_passed (count_reports run_passed no_reports runs) statuses

unfoldable pub missing_required : CiPolicyConfig → Tally → List String
missing_required cfg t = filter (λ n. not (has n t.by_name)) cfg.required_checks

abbrev pub all_pending : CiPolicyConfig → Tally → List String
all_pending cfg t =
    if is_empty cfg.required_checks
    then t.pending
    else extend_pending t.failed t.pending (missing_required cfg t)

-- The branch that has no report at all.
unfoldable pub without_reports : CiPolicyConfig → List String → Result GateDecision
without_reports cfg missing =
    if not (is_empty missing)
    then gate_decision false (first_of_each [] missing) []
    else if cfg.require_green_ci_before_merge
    then gate_decision false [] []
    else gate_decision true [] []

unfoldable pub with_reports : List String → List String → Result GateDecision
with_reports pending failed =
    gate_decision (is_empty (sorted_set failed) && is_empty (sorted_set pending))
      (sorted_set pending) (sorted_set failed)

pub evaluate : CiPolicyConfig → List CheckRun → List CheckRun → Result GateDecision
evaluate cfg runs statuses =
    let t = tally runs statuses in
    if is_empty runs && is_empty statuses
    then without_reports cfg (missing_required cfg t)
    else with_reports (all_pending cfg t) t.failed
