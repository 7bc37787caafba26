-- ===== src/Reconcile/HelperAgreement.antt =====
-- The planner cleans what the public helpers call orphans.
use aipro.Prelude.{
  ℕ, ◌+◌, ◌≤◌, String, true, false, List, [], ◌∷◌, map, filter, ◌&&◌, contains, string_eq, is_some,
  ◌≡◌, refl, arith, In, In-filter_intro,
}
use aipro.Config.{CleanupConfig, seconds}
use aipro.Reconcile.{SessionObservation, WorktreeObservation}
use aipro.Reconcile.Planner.{plan_orphan_sessions, plan_orphan_worktrees}
use aipro.Reconcile.Orphans.{clean_session, clean_worktree}
use aipro.Reconcile.Helpers.{is_orphan_session, is_orphan_worktree, list_orphan_sessions}

module _ (c : CleanupConfig) (now : ℕ) (live : List String) where
  -- The planner's orphaned sessions, in order, are those that have a work item and that
  -- `is_orphan_session` calls orphans, where a session has a live lease if its id is live.
  pub plan_orphan_sessions-is_orphan_session :
      (ss : List SessionObservation)
      → plan_orphan_sessions c now live ss
        ≡ map clean_session (
            filter
              (λ s.
                is_some s.work_item_id
                && is_orphan_session s (contains s.session_id live) now c.session_lease_ttl_seconds)
              ss)
  unfolding plan_orphan_sessions is_orphan_session filter
  plan_orphan_sessions-is_orphan_session [] = refl
  plan_orphan_sessions-is_orphan_session (s ∷ ss) =
      let rest = plan_orphan_sessions-is_orphan_session ss in ground (arith, rest)

  -- The planner's orphaned worktrees, in order, are those that `is_orphan_worktree` calls orphans,
  -- where a branch has a live lease if it is live.
  pub plan_orphan_worktrees-is_orphan_worktree :
      (ws : List WorktreeObservation)
      → plan_orphan_worktrees c now live ws
        ≡ map clean_worktree (
            filter
              (λ w.
                is_orphan_worktree w (contains w.branch live) now c.worktree_inactivity_ttl_seconds)
              ws)
  unfolding plan_orphan_worktrees is_orphan_worktree filter
  plan_orphan_worktrees-is_orphan_worktree [] = refl
  plan_orphan_worktrees-is_orphan_worktree (w ∷ ws) =
      let rest = plan_orphan_worktrees-is_orphan_worktree ws in ground (arith, rest)

-- The listing helper asks no lease: it lists every session that is idle for the TTL, also one that
-- `is_orphan_session` would spare for its live lease.
pub list_orphan_sessions_leased :
    (ss : List SessionObservation) (now ttl : ℕ) (s : SessionObservation)
    → In s ss
    → s.last_activity_at + seconds ttl ≤ now
    → In s (list_orphan_sessions ss now ttl) × (is_orphan_session s true now ttl ≡ false)
unfolding list_orphan_sessions is_orphan_session
list_orphan_sessions_leased ss now ttl s m h = (In-filter_intro _ s ss m (ground arith), refl)
