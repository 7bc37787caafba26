-- ===== src/Reconcile/Planner/Orphans.antt =====
-- src/ai_pr_orchestrator/v3/reconcile.py: what live leases reference, and the sessions and worktrees
-- that none does.
use aipro.Prelude.{
  ℕ, ◌+◌, String, Bool, none, some, List, [], ◌∷◌, ◌++◌, filter, not, ◌&&◌, ◌||◌, ◌==◌, string_eq,
  nat_eq, option_eq, if◌then◌else◌, is_some, ltb, contains,
}
use aipro.Config.{CleanupConfig, seconds}
use aipro.Queue.Claim.{Claim, is_stale}
use aipro.Reconcile.{
  Action, clean_orphan_session, clean_orphan_worktree, bare, SessionObservation,
  WorktreeObservation, ReconciliationInputs, work_item_id,
}

-- `_plan_orphan_sessions`
unfoldable pub plan_orphan_sessions :
    CleanupConfig → ℕ → List String → List SessionObservation → List Action
plan_orphan_sessions c now live [] = []
plan_orphan_sessions c now live (s ∷ ss) =
    let rest = plan_orphan_sessions c now live ss in
    if not (is_some s.work_item_id)
    then rest
    else if contains s.session_id live
    then rest
    else if ltb now (s.last_activity_at + seconds c.session_lease_ttl_seconds)
    then rest
    else record (bare clean_orphan_session) {
      work_item_id = s.work_item_id;
      session_id = some s.session_id;
    }
      ∷ rest

-- `_plan_orphan_worktrees`
unfoldable pub plan_orphan_worktrees :
    CleanupConfig → ℕ → List String → List WorktreeObservation → List Action
plan_orphan_worktrees c now live [] = []
plan_orphan_worktrees c now live (w ∷ ws) =
    let rest = plan_orphan_worktrees c now live ws in
    if w.is_default_branch
    then rest
    else if contains w.branch live
    then rest
    else if ltb now (w.last_commit_at + seconds c.worktree_inactivity_ttl_seconds)
    then rest
    else record (bare clean_orphan_worktree) { branch = some w.branch; worktree = some w.path }
      ∷ rest

-- `_collect_live_branches`: the set as a list
abbrev pub live_branch : ReconciliationInputs → List String
live_branch i = elim i.observation.claim [
  | none ↦ []
  | some c ↦ elim c.branch [ none ↦ [] | some b ↦ if is_stale c i.now.instant then [] else b ∷ [] ]
]

unfoldable pub collect_live_branches : List ReconciliationInputs → List String
collect_live_branches [] = []
collect_live_branches (i ∷ is) = live_branch i ++ collect_live_branches is

-- `_collect_live_session_ids`: a session of the work item whose run, if it has one, is the claim's
unfoldable pub owned_session : ReconciliationInputs → Claim → SessionObservation → Bool
owned_session i c s =
    (s.work_item_id == some (work_item_id i.observation))
    && (not (is_some s.run_id) || (s.run_id == some c.run_id))

unfoldable pub session_ids : List SessionObservation → List String
session_ids [] = []
session_ids (s ∷ ss) = s.session_id ∷ session_ids ss

unfoldable pub live_sessions : ReconciliationInputs → List String
unfolding session_ids owned_session
live_sessions i = elim i.observation.claim [
  | none ↦ []
  | some c ↦
      if is_stale c i.now.instant then [] else session_ids (filter (owned_session i c) i.sessions)
]

unfoldable pub collect_live_session_ids : List ReconciliationInputs → List String
unfolding live_sessions
collect_live_session_ids [] = []
collect_live_session_ids (i ∷ is) = live_sessions i ++ collect_live_session_ids is
