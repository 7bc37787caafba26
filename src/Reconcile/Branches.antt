-- ===== src/Reconcile/Branches.antt =====
-- No plan starts two branches for one run, and the deduplication drops nothing else.
use aipro.Prelude.{
  String, Bool, true, false, List, [], ◌∷◌, ◌≡◌, refl, sym, arith, filter, not, Distinct, In,
  contains, contains_iff, string_eq, Bool-cases, inl, inr, ◌⊎◌, ok, false≢true, ◌∙◌, ◌==◌, ==-cases,
  if◌then◌else◌,
}
use aipro.Reconcile.{Action, ReconciliationInputs, actions_target_branch}
use aipro.Reconcile.Planner.{Planner, run_key, finalize_from, finalize, plan_many}
use aipro.Reconcile.Guards.{plan_many-eq-ok}

-- The runs for which the actions start or move a branch, in order.
unfoldable pub relaunched_runs : List Action → List String
relaunched_runs [] = []
relaunched_runs (a ∷ acts) =
    let rest = relaunched_runs acts in if actions_target_branch a then run_key a ∷ rest else rest

-- `finalize_from seen` starts no branch for a run that was seen, and one at most for any other.
finalize_from-fresh :
    (k : String) (seen : List String) (acts : List Action)
    → contains k seen ≡ true
    → ¬ In k (relaunched_runs (finalize_from seen acts))
unfolding finalize_from relaunched_runs contains
finalize_from-fresh k seen [] h = λ m. m
finalize_from-fresh k seen (a ∷ acts) h = elim (Bool-cases (actions_target_branch a)) [
  | inl t ↦ elim (Bool-cases (contains (run_key a) seen)) [
    | inl u ↦ rw (t, u) (finalize_from-fresh k seen acts h)
    | inr u ↦
        rw (t, u)
          (rw t λ m. elim m [
            | inl e ↦ false≢true (sym u ∙ rw e h)
            | inr r ↦ finalize_from-fresh k (run_key a ∷ seen) acts (ground (arith, h)) r
          ])
  ]
  | inr t ↦ rw t (rw t (finalize_from-fresh k seen acts h))
]

finalize_from-Distinct :
    (seen : List String) (acts : List Action) → Distinct (relaunched_runs (finalize_from seen acts))
unfolding finalize_from relaunched_runs contains
finalize_from-Distinct seen [] = tt
finalize_from-Distinct seen (a ∷ acts) = elim (Bool-cases (actions_target_branch a)) [
  | inl t ↦ elim (Bool-cases (contains (run_key a) seen)) [
    | inl u ↦ rw (t, u) (finalize_from-Distinct seen acts)
    | inr u ↦
        rw (t, u)
          (rw t (
            finalize_from-fresh (run_key a) (run_key a ∷ seen) acts
                ((contains_iff (run_key a) (run_key a ∷ seen)).1 (inl refl)),
            finalize_from-Distinct (run_key a ∷ seen) acts,
          ))
  ]
  | inr t ↦ rw t (rw t (finalize_from-Distinct seen acts))
]

-- No plan, for any work items together, relaunches the same run twice.
pub plan_many-Distinct :
    (p : Planner) (is : List ReconciliationInputs) (acts : List Action)
    → plan_many p is ≡ ok acts
    → Distinct (relaunched_runs acts)
unfolding finalize
plan_many-Distinct p is acts h = rw (plan_many-eq-ok p is acts h) (finalize_from-Distinct [] _)

abbrev pub keeps_branches : Action → Bool
keeps_branches a = not (actions_target_branch a)

filter-finalize_from :
    (seen : List String) (acts : List Action)
    → filter keeps_branches (finalize_from seen acts) ≡ filter keeps_branches acts
unfolding finalize_from filter
filter-finalize_from seen [] = refl
filter-finalize_from seen (a ∷ acts) =
    ground (arith, filter-finalize_from seen acts, filter-finalize_from (run_key a ∷ seen) acts)

In-relaunched_runs-finalize_from :
    (k : String) (seen : List String) (acts : List Action)
    → In k (relaunched_runs acts)
    → (contains k seen ≡ true) ⊎ In k (relaunched_runs (finalize_from seen acts))
unfolding finalize_from relaunched_runs contains
In-relaunched_runs-finalize_from k seen [] m = absurd m
In-relaunched_runs-finalize_from k seen (a ∷ acts) m = elim (Bool-cases (actions_target_branch a)) [
  | inl t ↦ elim (Bool-cases (contains (run_key a) seen)) [
    | inl u ↦
        rw (t, u)
          (elim (starts t) [
            | inl e ↦ inl (rw e at u)
            | inr r ↦ In-relaunched_runs-finalize_from k seen acts r
          ])
    | inr u ↦
        rw (t, u)
          (rw t (elim (starts t) [
            | inl e ↦ inr (inl e)
            | inr r ↦ elim (In-relaunched_runs-finalize_from k (run_key a ∷ seen) acts r) [
              | inl v ↦ elim (==-cases (run_key a) k) [
                | inl (w, e) ↦ inr (inl e)
                | inr (w, e) ↦ inl (unseen w v)
              ]
              | inr n ↦ inr (inr n)
            ]
          ]))
  ]
  | inr t ↦ rw t (rw t (In-relaunched_runs-finalize_from k seen acts (rest t)))
]
  where
    starts : actions_target_branch a ≡ true → (run_key a ≡ k) ⊎ In k (relaunched_runs acts)
    starts t = rw t at m

    rest : actions_target_branch a ≡ false → In k (relaunched_runs acts)
    rest t = rw t at m

    unseen :
        (run_key a == k) ≡ false → contains k (run_key a ∷ seen) ≡ true → contains k seen ≡ true
    unseen w v = ground (arith, w, v)

-- The deduplication of a plan keeps every action that does not relaunch a run, in its place, and
-- every run that was to be relaunched.
pub finalize_keeps :
    (acts : List Action) (k : String)
    → In k (relaunched_runs acts)
    → (filter keeps_branches (finalize acts) ≡ filter keeps_branches acts)
      × In k (relaunched_runs (finalize acts))
unfolding finalize contains
finalize_keeps acts k m = (
  filter-finalize_from [] acts,
  elim (In-relaunched_runs-finalize_from k [] acts m) [ inl h ↦ absurd (false≢true h) | inr r ↦ r ],
)
