-- ===== src/Reconcile/Terminal.antt =====
-- Where the actions of a plan come from: finished work is left alone.
use aipro.Prelude.{
  String, Bool, true, false, some, List, [], ◌∷◌, ◌++◌, ◌≡◌, refl, subst, arith, Bool-cases,
  Option-cases, inl, inr, ◌⊎◌, All, All-In, In, In-append, ok, contains, string_eq,
}
use aipro.Reconcile.{
  ReconciliationInputs, Action, ActionKind, noop, clean_orphan_session, clean_orphan_worktree,
  work_item_id, actions_target_branch,
}
use aipro.Reconcile.Planner.{
  Planner, bound_action, plan_branch_moved, plan_stale_lease, plan_duplicate_sessions,
  plan_crash_point, plan_orphan_sessions, plan_orphan_worktrees, unless, plan_recovery, plan_one,
  plan_each, plan_many, finalize_from, finalize, run_key, in_terminal_phase, item_action,
}
use aipro.Reconcile.Guards.{plan_many-eq-ok}
use aipro.Reconcile.Orphans.{plan_orphan_sessions_iff, plan_orphan_worktrees_iff}
use aipro.Reconcile.Rows.{plan_crash_point-eq-some}

-- The actions that touch a run: all but the cleaning of orphans and the no-op.
abbrev pub drives : ActionKind → Bool
drives noop = false
drives clean_orphan_session = false
drives clean_orphan_worktree = false
drives _ = true

-- An action that touches a run names the work item of the inputs, which is not finished.
abbrev Attributed : ReconciliationInputs → Action → Type 0
Attributed i a =
    drives a.kind ≡ true
    → (in_terminal_phase i ≡ false) × (a.work_item_id ≡ some (work_item_id i.observation))

module _ (i : ReconciliationInputs) (running : in_terminal_phase i ≡ false) where
  abbrev Named : Action → Type 0
  Named a = a.work_item_id ≡ some (work_item_id i.observation)

  branch_moved-Named : All Named (plan_branch_moved i)
  unfolding plan_branch_moved
  branch_moved-Named = ground arith

  stale_lease-Named : All Named (plan_stale_lease i)
  unfolding plan_stale_lease
  stale_lease-Named = ground arith

  duplicate_sessions-Named : All Named (plan_duplicate_sessions i)
  unfolding plan_duplicate_sessions
  duplicate_sessions-Named = ground arith

  Attributed-of_Named : (acts : List Action) → All Named acts → All (Attributed i) acts
  Attributed-of_Named [] h = tt
  Attributed-of_Named (a ∷ acts) h = (λ _. (running, h.0), Attributed-of_Named acts h.1)

  crash_point-Named : (p : Planner) (a : Action) → plan_crash_point p.lanes i ≡ some a → Named a
  unfolding bound_action
  crash_point-Named p a h =
      let (r, taken, e) = plan_crash_point-eq-some p.lanes i a h in subst Named e (ground arith)

  plan_recovery-Attributed :
      (p : Planner) (bs ids : List String) (a : Action)
      → In a (plan_recovery p bs ids i)
      → Attributed i a
  unfolding plan_recovery
  plan_recovery-Attributed p bs ids a m = elim (Option-cases (plan_crash_point p.lanes i)) [
    | inl e ↦ orphan (rw e at m)
    | inr (b, e) ↦ elim (bound e) [
      | inl q ↦ λ _. (running, subst Named q (crash_point-Named p b e))
      | inr n ↦ orphan n
    ]
  ]
    where
      Orphans : List Action
      Orphans =
          plan_orphan_sessions p.cleanup i.now.instant ids i.sessions
          ++ plan_orphan_worktrees p.cleanup i.now.instant bs i.worktrees

      bound : {b : Action} → plan_crash_point p.lanes i ≡ some b → (b ≡ a) ⊎ In a Orphans
      bound e = rw e at m

      orphan : In a Orphans → Attributed i a
      orphan n =
          elim (In-append a (plan_orphan_sessions p.cleanup i.now.instant ids i.sessions) _ n) [
            | inl l ↦
                let (s, _, _, q) =
                  (plan_orphan_sessions_iff p.cleanup i.now.instant ids a i.sessions).0 l in
                subst (Attributed i) q (λ d. cc)
            | inr r ↦
                let (w, _, _, q) =
                  (plan_orphan_worktrees_iff p.cleanup i.now.instant bs a i.worktrees).0 r in
                subst (Attributed i) q (λ d. cc)
          ]

In-unless : (a : Action) (xs ys : List Action) → In a (unless xs ys) → In a xs ⊎ In a ys
In-unless a [] ys m = inr m
In-unless a (x ∷ xs) ys m = inl m

plan_one-Attributed :
    (p : Planner) (bs ids : List String) (i : ReconciliationInputs) (a : Action)
    → In a (plan_one p bs ids i)
    → Attributed i a
unfolding plan_one
plan_one-Attributed p bs ids i a m = elim (Bool-cases (in_terminal_phase i)) [
  | inl t ↦ subst (Attributed i) (idle t) (λ d. cc)
  | inr t ↦ elim (In-unless a (plan_branch_moved i) _ (working t)) [
    | inl n ↦ All-In _ a _ (Attributed-of_Named i t _ (branch_moved-Named i t)) n
    | inr n ↦ elim (In-unless a (plan_stale_lease i) _ n) [
      | inl n ↦ All-In _ a _ (Attributed-of_Named i t _ (stale_lease-Named i t)) n
      | inr n ↦ elim (In-unless a (plan_duplicate_sessions i) _ n) [
        | inl n ↦ All-In _ a _ (Attributed-of_Named i t _ (duplicate_sessions-Named i t)) n
        | inr n ↦ plan_recovery-Attributed i t p bs ids a n
      ]
    ]
  ]
]
  where
    idle : in_terminal_phase i ≡ true → item_action i noop ≡ a
    idle t = elim (alone t) [ inl e ↦ e | inr n ↦ absurd n ]
      where
        alone : in_terminal_phase i ≡ true → In a (item_action i noop ∷ [])
        alone u = rw u at m

    working :
        in_terminal_phase i ≡ false
        → In a (
            unless (plan_branch_moved i) (
              unless
                (plan_stale_lease i)
                (unless (plan_duplicate_sessions i) (plan_recovery p bs ids i))))
    working t = rw t at m

In-plan_each :
    (p : Planner) (bs ids : List String) (a : Action) (is : List ReconciliationInputs)
    → In a (plan_each p bs ids is)
    → (i : ReconciliationInputs) × In i is × In a (plan_one p bs ids i)
unfolding plan_each
In-plan_each p bs ids a [] m = absurd m
In-plan_each p bs ids a (i ∷ is) m = elim (In-append a (plan_one p bs ids i) _ m) [
  | inl n ↦ (i, inl refl, n)
  | inr n ↦ let (j, l, o) = In-plan_each p bs ids a is n in (j, inr l, o)
]

In-finalize_from :
    (a : Action) (seen : List String) (acts : List Action)
    → In a (finalize_from seen acts)
    → In a acts
unfolding finalize_from
In-finalize_from a seen [] m = m
In-finalize_from a seen (x ∷ acts) m = elim (Bool-cases (actions_target_branch x)) [
  | inl t ↦ elim (Bool-cases (contains (run_key x) seen)) [
    | inl u ↦ inr (In-finalize_from a seen acts (rw (t, u) at m))
    | inr u ↦
        elim (let n : (x ≡ a) ⊎ In a (finalize_from (run_key x ∷ seen) acts) = rw (t, u) at m in
          n) [ inl e ↦ inl e | inr n ↦ inr (In-finalize_from a (run_key x ∷ seen) acts n) ]
  ]
  | inr t ↦ elim (let n : (x ≡ a) ⊎ In a (finalize_from seen acts) = rw t at m in n) [
    | inl e ↦ inl e
    | inr n ↦ inr (In-finalize_from a seen acts n)
  ]
]

-- An action of a plan that resumes, collects, relaunches, escalates, halts or recovers a lease is
-- for a work item of the inputs that is in no terminal phase.
pub terminal_untouched :
    (p : Planner) (is : List ReconciliationInputs) (acts : List Action) (a : Action)
    → plan_many p is ≡ ok acts
    → In a acts
    → drives a.kind ≡ true
    → (i : ReconciliationInputs) × In i is
      × (in_terminal_phase i ≡ false)
      × (a.work_item_id ≡ some (work_item_id i.observation))
unfolding finalize
terminal_untouched p is acts a planned m d =
    elim (In-unless a (plan_each p _ _ is) _
      (In-finalize_from a [] _ (subst (In a) (plan_many-eq-ok p is acts planned) m))) [
        | inl n ↦
            let (i, l, o) = In-plan_each p _ _ a is n in
            let (t, w) = plan_one-Attributed p _ _ i a o d in (i, l, t, w)
        | inr n ↦ elim n [
          | inl e ↦ absurd (ground (arith, e, d))
          | inr none_left ↦ absurd none_left
        ]
      ]
