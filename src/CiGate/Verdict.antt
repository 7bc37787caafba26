-- ===== src/CiGate/Verdict.antt =====
-- When the gate passes, and which checks it reports as pending.
use aipro.Prelude.{
  String, Bool, true, false, Option, List, [], ◌∷◌, ◌++◌, ◌≡◌, refl, inl, inr, arith, is_empty,
  contains, string_eq, Bool-cases, ◌∙◌, if◌then◌else◌, filter, all, any, not, ◌&&◌, ◌||◌, ◌==◌, ok,
}
use aipro.Prelude.Dict.{lookup, has, has-insert}
use aipro.Config.{CiPolicyConfig}
use aipro.Interfaces.{GateDecision, gate_decision}
use aipro.CiGate.{
  CheckRun, Tally, completed, run_passed, status_passed, count_report, count_reports,
  extend_pending, sorted_set, first_of_each, tally, missing_required, all_pending, without_reports,
  with_reports, evaluate,
}
use aipro.CiGate.Sets.{is_empty-sorted_set}

-- A report that completed with an accepted conclusion.
abbrev pub passes : (Option String → Bool) → CheckRun → Bool
passes accepts r = (r.status == completed) && accepts r.conclusion

-- The same under one name.
abbrev pub passes_as : (Option String → Bool) → String → CheckRun → Bool
passes_as accepts n r = passes accepts r && (r.name == n)

is_empty-snoc : (xs : List String) (x : String) → is_empty (xs ++ x ∷ []) ≡ false
is_empty-snoc [] x = refl
is_empty-snoc (y ∷ xs) x = refl

abbrev clear : Tally → Bool
clear t = is_empty t.failed && is_empty t.pending

module _ (accepts : Option String → Bool) where
  clear-count_report :
      (t : Tally) (r : CheckRun) → clear (count_report accepts t r) ≡ (clear t && passes accepts r)
  unfolding count_report
  clear-count_report t r =
      ground (arith, is_empty-snoc t.pending r.name, is_empty-snoc t.failed r.name)

  clear-count_reports :
      (t : Tally) (rs : List CheckRun)
      → clear (count_reports accepts t rs) ≡ (clear t && all (passes accepts) rs)
  unfolding count_reports all
  clear-count_reports t [] = ground arith
  clear-count_reports t (r ∷ rs) =
      clear-count_reports (count_report accepts t r) rs ∙ rw (clear-count_report t r) (ground arith)

  has-count_report :
      (t : Tally) (r : CheckRun) (n : String)
      → has n (count_report accepts t r).by_name ≡ (has n t.by_name || passes_as accepts n r)
  unfolding count_report
  has-count_report t r n = ground (arith, has-insert r.name n r.conclusion t.by_name)

  has-count_reports :
      (t : Tally) (rs : List CheckRun) (n : String)
      → has n (count_reports accepts t rs).by_name
        ≡ (has n t.by_name || any (passes_as accepts n) rs)
  unfolding count_reports any
  has-count_reports t [] n = ground arith
  has-count_reports t (r ∷ rs) n =
      has-count_reports (count_report accepts t r) rs n ∙ rw (has-count_report t r n) (ground arith)

-- Some check-run or status reports success under the name.
abbrev pub reported : List CheckRun → List CheckRun → String → Bool
reported runs statuses n =
    any (passes_as run_passed n) runs || any (passes_as status_passed n) statuses

-- What a green head is: with no report at all, nothing is required; otherwise every report passed,
-- and every required name is among them.
abbrev pub green : CiPolicyConfig → List CheckRun → List CheckRun → Bool
green cfg runs statuses =
    if is_empty runs && is_empty statuses
    then is_empty cfg.required_checks && not cfg.require_green_ci_before_merge
    else (all (passes run_passed) runs && all (passes status_passed) statuses)
      && all (reported runs statuses) cfg.required_checks

module _ (runs statuses : List CheckRun) where
  clear-tally :
      clear (tally runs statuses)
      ≡ (all (passes run_passed) runs && all (passes status_passed) statuses)
  unfolding tally
  clear-tally =
      clear-count_reports status_passed _ statuses
      ∙ rw (clear-count_reports run_passed _ runs) (ground arith)

  pub has-tally : (n : String) → has n (tally runs statuses).by_name ≡ reported runs statuses n
  unfolding tally lookup
  has-tally n =
      has-count_reports status_passed _ statuses n
      ∙ rw (has-count_reports run_passed _ runs n) (ground arith)

is_empty-filter-not :
    (f g : String → Bool)
    → ((n : String) → f n ≡ g n)
    → (ns : List String) → is_empty (filter (λ n. not (f n)) ns) ≡ all g ns
unfolding filter all
is_empty-filter-not f g e [] = refl
is_empty-filter-not f g e (n ∷ ns) = ground (arith, e n, is_empty-filter-not f g e ns)

is_empty-extend_full :
    (failed pending ns : List String)
    → is_empty pending ≡ false
    → is_empty (extend_pending failed pending ns) ≡ false
unfolding extend_pending
is_empty-extend_full failed pending [] h = h
is_empty-extend_full failed pending (n ∷ ns) h =
    is_empty-extend_full failed
      (if contains n pending || contains n failed then pending else pending ++ n ∷ []) ns
      (ground (arith, h, is_empty-snoc pending n))

is_empty-extend :
    (pending ns : List String)
    → is_empty (extend_pending [] pending ns) ≡ (is_empty pending && is_empty ns)
unfolding extend_pending contains
is_empty-extend [] [] = refl
is_empty-extend (p ∷ ps) [] = refl
is_empty-extend [] (n ∷ ns) = is_empty-extend_full [] (n ∷ []) ns refl
is_empty-extend (p ∷ ps) (n ∷ ns) =
    is_empty-extend_full [] _ ns (ground (arith, is_empty-snoc (p ∷ ps) n))

nothing_left :
    (failed pending ns : List String)
    → (is_empty failed && is_empty (extend_pending failed pending ns))
      ≡ ((is_empty failed && is_empty pending) && is_empty ns)
nothing_left [] pending ns = is_empty-extend pending ns
nothing_left (f ∷ fs) pending ns = refl

nothing_required : (ns : List String) (g : String → Bool) → is_empty ns ≡ true → all g ns ≡ true
unfolding all
nothing_required [] g h = refl
nothing_required (n ∷ ns) g h = cc

left_over :
    (cfg : CiPolicyConfig) (runs statuses : List CheckRun)
    → (is_empty (tally runs statuses).failed && is_empty (all_pending cfg (tally runs statuses)))
      ≡ ((all (passes run_passed) runs && all (passes status_passed) statuses)
          && all (reported runs statuses) cfg.required_checks)
unfolding missing_required
left_over cfg runs statuses = elim (Bool-cases (is_empty cfg.required_checks)) [
  | inl e ↦ rw e (
      rw (nothing_required cfg.required_checks (reported runs statuses) e)
        (ground (arith, clear-tally runs statuses)))
  | inr e ↦ rw e (
      nothing_left (tally runs statuses).failed (tally runs statuses).pending _
      ∙ rw (clear-tally runs statuses)
          (rw (is_empty-filter-not _ _ (has-tally runs statuses) cfg.required_checks)))
]

with_reports-passed :
    (pending failed : List String)
    → (d : GateDecision) × (with_reports pending failed ≡ ok d)
      × (d.passed ≡ (is_empty failed && is_empty pending))
      × (d.pending_checks ≡ sorted_set pending)
      × (d.failed_checks ≡ sorted_set failed)
unfolding with_reports gate_decision
with_reports-passed pending failed = (
  record {
    passed = is_empty (sorted_set failed) && is_empty (sorted_set pending);
    pending_checks = sorted_set pending;
    failed_checks = sorted_set failed;
  },
  ground arith,
  simp is_empty-sorted_set,
  refl,
  refl,
)

without_reports-passed :
    (cfg : CiPolicyConfig) (missing : List String)
    → (d : GateDecision) × (without_reports cfg missing ≡ ok d)
      × (d.passed ≡ (is_empty missing && not cfg.require_green_ci_before_merge))
unfolding without_reports gate_decision
without_reports-passed cfg missing = (
  record {
    passed = is_empty missing && not cfg.require_green_ci_before_merge;
    pending_checks = if is_empty missing then [] else first_of_each [] missing;
    failed_checks = [];
  },
  ground arith,
  refl,
)

is_empty-missing :
    (cfg : CiPolicyConfig)
    → is_empty (missing_required cfg (tally [] [])) ≡ is_empty cfg.required_checks
unfolding missing_required tally count_reports filter lookup
is_empty-missing cfg = untouched cfg.required_checks
  where
    untouched :
        (ns : List String)
        → is_empty (filter (λ n. not (has n (tally [] []).by_name)) ns) ≡ is_empty ns
    untouched [] = refl
    untouched (n ∷ ns) = refl

pub some_reports :
    (cfg : CiPolicyConfig) (runs statuses : List CheckRun)
    → (is_empty runs && is_empty statuses) ≡ false
    → (d : GateDecision) × (evaluate cfg runs statuses ≡ ok d)
      × (d.passed ≡ green cfg runs statuses)
      × (d.pending_checks ≡ sorted_set (all_pending cfg (tally runs statuses)))
unfolding evaluate
some_reports cfg runs statuses some_reported =
    let (d, e, p, q, _) =
      with_reports-passed (all_pending cfg (tally runs statuses)) (tally runs statuses).failed in
    (d, rw some_reported e, rw some_reported (p ∙ left_over cfg runs statuses), q)

-- The gate always returns a decision, and it passes exactly on a green head.
pub evaluate-green :
    (cfg : CiPolicyConfig) (runs statuses : List CheckRun)
    → (d : GateDecision) × (evaluate cfg runs statuses ≡ ok d)
      × (d.passed ≡ green cfg runs statuses)
unfolding evaluate
evaluate-green cfg [] [] =
    let (d, e, p) = without_reports-passed cfg (missing_required cfg (tally [] [])) in
    (d, e, p ∙ rw (is_empty-missing cfg))
evaluate-green cfg [] (s ∷ ss) = let (d, e, p, _) = some_reports cfg [] (s ∷ ss) refl in (d, e, p)
evaluate-green cfg (r ∷ rs) statuses =
    let (d, e, p, _) = some_reports cfg (r ∷ rs) statuses refl in (d, e, p)
