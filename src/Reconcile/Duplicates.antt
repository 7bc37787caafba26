-- ===== src/Reconcile/Duplicates.antt =====
-- Which live sessions of one run the planner takes for duplicates.
use aipro.Prelude.{
  ◌≤◌, true, false, List, [], ◌∷◌, ◌≡◌, ◌≢◌, refl, sym, ap, arith, Bool-cases, inl, inr, In, filter,
  not, length, map, ◌∙◌, all-In, string_eq, eq_iff, le→ltb_false, length-filter-le,
}
use aipro.Reconcile.{ReconciliationInputs, SessionObservation, escalate, run_id, sessions_for_run}
use aipro.Reconcile.Context.{one_lane}
use aipro.Reconcile.Planner.{plan_duplicate_sessions, duplicates}

-- The sessions of the item's run that have not ended, and those that have.
abbrev pub live : ReconciliationInputs → List SessionObservation
live i = filter (λ s. not s.is_terminal) (sessions_for_run i (run_id i.observation))

abbrev pub ended : ReconciliationInputs → List SessionObservation
ended i = filter (λ s. s.is_terminal) (sessions_for_run i (run_id i.observation))

one_lane_same :
    (ss : List SessionObservation) (a c : SessionObservation)
    → one_lane ss ≡ true
    → In a ss
    → In c ss
    → a.lane ≡ c.lane
unfolding one_lane
one_lane_same [] a c h m n = absurd m
one_lane_same (s ∷ ss) a c h m n = at a m ∙ sym (at c n)
  where
    at : (x : SessionObservation) → In x (s ∷ ss) → x.lane ≡ s.lane
    at x (inl e) = ap (λ y. y.lane) (sym e)
    at x (inr r) = (eq_iff x.lane s.lane).0 (all-In _ x ss h r)

two_live :
    (i : ReconciliationInputs)
    → 2 ≤ length (live i)
    → 2 ≤ length (sessions_for_run i (run_id i.observation))
two_live i h =
    omega
      (arith, length-filter-le (λ s. not s.is_terminal) (sessions_for_run i (run_id i.observation)))

kinds_same_lane :
    (i : ReconciliationInputs) (l e : List SessionObservation)
    → 2 ≤ length l
    → one_lane l ≡ true
    → map (λ a. a.kind) (duplicates i l e) ≡ escalate ∷ []
unfolding duplicates
kinds_same_lane i [] e h o = absurd (omega arith)
kinds_same_lane i (s ∷ []) e h o = absurd (omega arith)
kinds_same_lane i (s ∷ t ∷ l) [] h o = ground arith
kinds_same_lane i (s ∷ t ∷ l) (x ∷ e) h o = ground arith

-- Two or more live sessions of a run, all in one lane, are escalated, and nothing else is ordered.
pub duplicates_escalated :
    (i : ReconciliationInputs)
    → 2 ≤ length (live i)
    → one_lane (live i) ≡ true
    → map (λ a. a.kind) (plan_duplicate_sessions i) ≡ escalate ∷ []
unfolding plan_duplicate_sessions
duplicates_escalated i h o =
    rw (le→ltb_false _ 2 (two_live i h)) (kinds_same_lane i (live i) (ended i) h o)

none_ended :
    (i : ReconciliationInputs) (l : List SessionObservation)
    → one_lane l ≡ false
    → duplicates i l [] ≡ []
unfolding duplicates
none_ended i [] o = refl
none_ended i (s ∷ l) o = ground arith

-- Two live sessions of a run in one lane are not reported when a third live session of the run is
-- in another lane and no session of the run has ended.
pub duplicates_missed :
    (i : ReconciliationInputs) (a b c : SessionObservation)
    → In a (live i)
    → In b (live i)
    → a.session_id ≢ b.session_id
    → a.lane ≡ b.lane
    → In c (live i)
    → c.lane ≢ a.lane
    → ended i ≡ []
    → plan_duplicate_sessions i ≡ []
unfolding plan_duplicate_sessions
duplicates_missed i a b c ma mb ne same mc other none_over =
    rw none_over (ground (arith, none_ended i (live i) mixed))
  where
    mixed : one_lane (live i) ≡ false
    mixed = elim (Bool-cases (one_lane (live i))) [
      | inl t ↦ absurd (other (one_lane_same (live i) c a t mc ma))
      | inr t ↦ t
    ]
