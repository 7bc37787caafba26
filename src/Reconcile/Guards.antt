-- ===== src/Reconcile/Guards.antt =====
-- Every planned action keeps the policy on manual approval, and a plan is made whenever the clocks
-- are aware.
use aipro.Prelude.{
  ℕ, String, true, false, some, List, [], ◌∷◌, ◌++◌, ◌≡◌, ◌⊎◌, refl, arith, All, Option-cases,
  All-append, any, not, ok, err, domain_error, Bool-cases, inl, inr, contains, string_eq,
}
use aipro.Reconcile.{
  Action, is_manual, SessionObservation, WorktreeObservation, ReconciliationInputs, noop, bare,
  actions_target_branch,
}
use aipro.Reconcile.Planner.{
  Planner, plan_branch_moved, plan_stale_lease, plan_duplicate_sessions, bound_action,
  plan_crash_point, plan_orphan_sessions, plan_orphan_worktrees, unless, plan_recovery, plan_one,
  plan_each, finalize_from, finalize, plan_many, in_terminal_phase, run_key, collect_live_branches,
  collect_live_session_ids,
}

-- Applied automatically exactly when it is not a manual action.
abbrev pub IsGuarded : Action → Type 0
IsGuarded a = a.auto_apply ≡ not (is_manual a.kind)

branch_moved-IsGuarded : (i : ReconciliationInputs) → All IsGuarded (plan_branch_moved i)
unfolding plan_branch_moved
branch_moved-IsGuarded i = ground arith

stale_lease-IsGuarded : (i : ReconciliationInputs) → All IsGuarded (plan_stale_lease i)
unfolding plan_stale_lease
stale_lease-IsGuarded i = ground arith

duplicate_sessions-IsGuarded :
    (i : ReconciliationInputs) → All IsGuarded (plan_duplicate_sessions i)
unfolding plan_duplicate_sessions
duplicate_sessions-IsGuarded i = ground arith

crash_point-IsGuarded :
    (p : Planner) (i : ReconciliationInputs) {a : Action}
    → plan_crash_point p.lanes i ≡ some a
    → IsGuarded a
unfolding plan_crash_point bound_action
crash_point-IsGuarded p i h = ground arith

orphan_sessions-IsGuarded :
    (p : Planner) (now : ℕ) (ids : List String) (ss : List SessionObservation)
    → All IsGuarded (plan_orphan_sessions p.cleanup now ids ss)
unfolding plan_orphan_sessions
orphan_sessions-IsGuarded p now ids [] = tt
orphan_sessions-IsGuarded p now ids (s ∷ ss) =
    ground (arith, orphan_sessions-IsGuarded p now ids ss)

orphan_worktrees-IsGuarded :
    (p : Planner) (now : ℕ) (bs : List String) (ws : List WorktreeObservation)
    → All IsGuarded (plan_orphan_worktrees p.cleanup now bs ws)
unfolding plan_orphan_worktrees
orphan_worktrees-IsGuarded p now bs [] = tt
orphan_worktrees-IsGuarded p now bs (w ∷ ws) =
    ground (arith, orphan_worktrees-IsGuarded p now bs ws)

pub All-unless :
    (P : Action → Type 0) (xs ys : List Action) → All P xs → All P ys → All P (unless xs ys)
All-unless P [] ys hx hy = hy
All-unless P (x ∷ xs) ys hx hy = hx

-- An invariant of the actions of each work item is one of the plan.
module _ (P : Action → Type 0) (p : Planner) where
  pub All-plan_each :
      (bs ids : List String) (is : List ReconciliationInputs)
      → ((i : ReconciliationInputs) → All P (plan_one p bs ids i))
      → All P (plan_each p bs ids is)
  unfolding plan_each
  All-plan_each bs ids [] one = tt
  All-plan_each bs ids (i ∷ is) one =
      All-append P (plan_one p bs ids i) _ (one i) (All-plan_each bs ids is one)

  pub All-finalize_from :
      (seen : List String) (acts : List Action) → All P acts → All P (finalize_from seen acts)
  unfolding finalize_from
  All-finalize_from seen [] h = tt
  All-finalize_from seen (a ∷ acts) h =
      let again = All-finalize_from seen acts h.1 in
      let first = All-finalize_from (run_key a ∷ seen) acts h.1 in
      elim (Bool-cases (actions_target_branch a)) [
        | inl t ↦ elim (Bool-cases (contains (run_key a) seen)) [
          | inl u ↦ rw (t, u) again
          | inr u ↦ rw (t, u) (h.0, first)
        ]
        | inr t ↦ rw t (h.0, again)
      ]

plan_recovery-IsGuarded :
    (p : Planner) (bs ids : List String) (i : ReconciliationInputs)
    → All IsGuarded (plan_recovery p bs ids i)
unfolding plan_recovery
plan_recovery-IsGuarded p bs ids i = elim (Option-cases (plan_crash_point p.lanes i)) [
  | inl e ↦ rw e orphans
  | inr (a, e) ↦ rw e (crash_point-IsGuarded p i e, orphans)
]
  where
    orphans : All IsGuarded (
        plan_orphan_sessions p.cleanup i.now.instant ids i.sessions
        ++ plan_orphan_worktrees p.cleanup i.now.instant bs i.worktrees)
    orphans =
        All-append IsGuarded (plan_orphan_sessions p.cleanup i.now.instant ids i.sessions) _
          (orphan_sessions-IsGuarded p _ ids i.sessions)
          (orphan_worktrees-IsGuarded p _ bs i.worktrees)

plan_one-IsGuarded :
    (p : Planner) (bs ids : List String) (i : ReconciliationInputs)
    → All IsGuarded (plan_one p bs ids i)
unfolding plan_one
plan_one-IsGuarded p bs ids i = elim (Bool-cases (in_terminal_phase i)) [
  | inl t ↦ rw t (refl, tt)
  | inr t ↦ rw t (
      All-unless IsGuarded (plan_branch_moved i) _ (branch_moved-IsGuarded i) (
        All-unless IsGuarded (plan_stale_lease i) _ (stale_lease-IsGuarded i) (
          All-unless IsGuarded (plan_duplicate_sessions i) _ (duplicate_sessions-IsGuarded i)
            (plan_recovery-IsGuarded p bs ids i))))
]

-- A plan is the finalized actions of the work items, or a single no-op if there are none.
pub plan_many-eq-ok :
    (p : Planner) (is : List ReconciliationInputs) (acts : List Action)
    → plan_many p is ≡ ok acts
    → acts
      ≡ finalize (
          unless
            (plan_each p (collect_live_branches is) (collect_live_session_ids is) is)
            (bare noop ∷ []))
unfolding plan_many
plan_many-eq-ok p is acts h = ground arith

-- What holds of the actions of every work item, and of a no-op, holds of the plan.
pub plan_many-All :
    (P : Action → Type 0) (p : Planner) (is : List ReconciliationInputs) (acts : List Action)
    → P (bare noop)
    → ((i : ReconciliationInputs)
        → All P (plan_one p (collect_live_branches is) (collect_live_session_ids is) i))
    → plan_many p is ≡ ok acts
    → All P acts
unfolding finalize
plan_many-All P p is acts idle one h = rw (plan_many-eq-ok p is acts h) (
    All-finalize_from P p [] _
      (All-unless P (plan_each p _ _ is) _ (All-plan_each P p _ _ is one) (idle, tt)))

-- In every plan, an action is marked for automatic application exactly when it is not one of the
-- manual kinds (escalate and halt).
pub plan_many-IsGuarded :
    (p : Planner) (is : List ReconciliationInputs) (acts : List Action)
    → plan_many p is ≡ ok acts
    → All IsGuarded acts
plan_many-IsGuarded p is acts = plan_many-All IsGuarded p is acts refl (plan_one-IsGuarded p _ _)

-- Planning fails with a DomainError exactly when some clock lacks its timezone; otherwise it
-- returns a plan, and a plan holds at least one action.
pub plan_many_total :
    (p : Planner) (is : List ReconciliationInputs)
    → (any (λ i. not i.now.aware) is ≡ true) × (plan_many p is ≡ err domain_error)
      ⊎ (any (λ i. not i.now.aware) is ≡ false)
        × ((a : Action) × (rest : List Action) × (plan_many p is ≡ ok (a ∷ rest)))
unfolding plan_many finalize finalize_from contains
plan_many_total p is = elim (Bool-cases (any (λ i. not i.now.aware) is)) [
  | inl t ↦ inl (t, rw t)
  | inr t ↦ inr (t, rw t (first_of_plan (plan_each p _ _ is)))
]
  where
    first_of_plan :
        (acts : List Action)
        → (a : Action) × (rest : List Action) × (ok
              (finalize_from [] (unless acts (bare noop ∷ [])))
            ≡ ok (a ∷ rest))
    first_of_plan [] = (bare noop, [], refl)
    first_of_plan (a ∷ acts) = elim (Bool-cases (actions_target_branch a)) [
      | inl t ↦ (a, finalize_from (run_key a ∷ []) acts, rw t)
      | inr t ↦ (a, finalize_from [] acts, rw t)
    ]
