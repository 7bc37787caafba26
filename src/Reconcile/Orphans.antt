-- ===== src/Reconcile/Orphans.antt =====
-- Which sessions and worktrees a plan orders to clean: only old ones that no live lease references.
use aipro.Prelude.{
  ℕ, ◌+◌, ◌≤◌, String, true, false, some, List, ◌∷◌, ◌≡◌, ◌↔◌, refl, In, In-Collects, contains,
  string_eq, option_eq, Bool-cases, inl, inr, ◌⊎◌, is_some, ltb, ltb_false→le, le→ltb_false,
}
use aipro.Config.{CleanupConfig, seconds}
use aipro.Reconcile.{
  Action, clean_orphan_session, clean_orphan_worktree, bare, SessionObservation,
  WorktreeObservation,
}
use aipro.Reconcile.Planner.{plan_orphan_sessions, plan_orphan_worktrees}

-- A session with a work item, that no live lease references, idle for the whole TTL.
pub record IsOrphanSession (c : CleanupConfig) (now : ℕ) (live : List String)
    (s : SessionObservation) : Type 0 where
  pub attributed : is_some s.work_item_id ≡ true
  pub unreferenced : contains s.session_id live ≡ false
  pub expired : s.last_activity_at + seconds c.session_lease_ttl_seconds ≤ now

-- A worktree off the default branch, whose branch no live lease references, idle for the TTL.
pub record IsOrphanWorktree (c : CleanupConfig) (now : ℕ) (live : List String)
    (w : WorktreeObservation) : Type 0 where
  pub off_default : w.is_default_branch ≡ false
  pub unreferenced : contains w.branch live ≡ false
  pub expired : w.last_commit_at + seconds c.worktree_inactivity_ttl_seconds ≤ now

abbrev pub clean_session : SessionObservation → Action
clean_session s = record (bare clean_orphan_session) {
  work_item_id = s.work_item_id;
  session_id = some s.session_id;
}

abbrev pub clean_worktree : WorktreeObservation → Action
clean_worktree w = record (bare clean_orphan_worktree) {
  branch = some w.branch;
  worktree = some w.path;
}

module _ (c : CleanupConfig) (now : ℕ) (live : List String) where
  plan_orphan_sessions-cons :
      (s : SessionObservation) (ss : List SessionObservation)
      → IsOrphanSession c now live s
          × (plan_orphan_sessions c now live (s ∷ ss)
              ≡ clean_session s ∷ plan_orphan_sessions c now live ss)
        ⊎ ¬ IsOrphanSession c now live s
          × (plan_orphan_sessions c now live (s ∷ ss) ≡ plan_orphan_sessions c now live ss)
  unfolding plan_orphan_sessions
  plan_orphan_sessions-cons s ss = elim (Bool-cases (is_some s.work_item_id)) [
    | inr a ↦ inr (λ o. cc o.attributed, rw a)
    | inl a ↦ elim (Bool-cases (contains s.session_id live)) [
      | inl u ↦ inr (λ o. cc o.unreferenced, rw (a, u))
      | inr u ↦
          elim (Bool-cases (ltb now (s.last_activity_at + seconds c.session_lease_ttl_seconds))) [
            | inl e ↦ inr (λ o. cc (le→ltb_false _ _ o.expired), rw (a, u, e))
            | inr e ↦ inl (
              record { attributed = a; unreferenced = u; expired = ltb_false→le _ _ e },
              rw (a, u, e),
            )
          ]
    ]
  ]

  plan_orphan_worktrees-cons :
      (w : WorktreeObservation) (ws : List WorktreeObservation)
      → IsOrphanWorktree c now live w
          × (plan_orphan_worktrees c now live (w ∷ ws)
              ≡ clean_worktree w ∷ plan_orphan_worktrees c now live ws)
        ⊎ ¬ IsOrphanWorktree c now live w
          × (plan_orphan_worktrees c now live (w ∷ ws) ≡ plan_orphan_worktrees c now live ws)
  unfolding plan_orphan_worktrees
  plan_orphan_worktrees-cons w ws = elim (Bool-cases w.is_default_branch) [
    | inl d ↦ inr (λ o. cc o.off_default, rw d)
    | inr d ↦ elim (Bool-cases (contains w.branch live)) [
      | inl u ↦ inr (λ o. cc o.unreferenced, rw (d, u))
      | inr u ↦
          elim (Bool-cases
            (ltb now (w.last_commit_at + seconds c.worktree_inactivity_ttl_seconds))) [
              | inl e ↦ inr (λ o. cc (le→ltb_false _ _ o.expired), rw (d, u, e))
              | inr e ↦ inl (
                record { off_default = d; unreferenced = u; expired = ltb_false→le _ _ e },
                rw (d, u, e),
              )
            ]
    ]
  ]

  -- The sessions that are ordered to be cleaned are exactly the orphans among those observed: those
  -- that have a work item, that no live lease references, and that were idle for the TTL.
  pub plan_orphan_sessions_iff :
      (a : Action) (ss : List SessionObservation)
      → In a (plan_orphan_sessions c now live ss) ↔ (
          (s : SessionObservation) × In s ss × IsOrphanSession c now live s × (clean_session s ≡ a))
  unfolding plan_orphan_sessions
  plan_orphan_sessions_iff =
      In-Collects _ clean_session _ (record { nil = refl; cons = plan_orphan_sessions-cons })

  -- The worktrees that are ordered to be cleaned are exactly the orphans among those observed: those
  -- off the default branch, whose branch no live lease references, and idle for the TTL.
  pub plan_orphan_worktrees_iff :
      (a : Action) (ws : List WorktreeObservation)
      → In a (plan_orphan_worktrees c now live ws) ↔ (
          (w : WorktreeObservation) × In w ws
          × IsOrphanWorktree c now live w
          × (clean_worktree w ≡ a))
  unfolding plan_orphan_worktrees
  plan_orphan_worktrees_iff =
      In-Collects _ clean_worktree _ (record { nil = refl; cons = plan_orphan_worktrees-cons })
