-- ===== src/Reconcile/Helpers.antt =====
-- src/ai_pr_orchestrator/v3/reconcile.py: the public helpers for orphans.
use aipro.Prelude.{ℕ, ◌+◌, Bool, true, false, List, filter, not, ◌&&◌, leb, if◌then◌else◌}
use aipro.Config.{seconds}
use aipro.Reconcile.{SessionObservation, WorktreeObservation}

-- `now - then >= timedelta(seconds=ttl)`, where `then` may be in the future
abbrev pub aged_out : ℕ → ℕ → ℕ → Bool
aged_out at now ttl = leb (at + seconds ttl) now

unfoldable pub is_orphan_session : SessionObservation → Bool → ℕ → ℕ → Bool
is_orphan_session s has_live_lease now ttl =
    if has_live_lease then false else aged_out s.last_activity_at now ttl

unfoldable pub is_orphan_worktree : WorktreeObservation → Bool → ℕ → ℕ → Bool
is_orphan_worktree w branch_has_live_lease now ttl =
    if w.is_default_branch
    then false
    else if branch_has_live_lease
    then false
    else aged_out w.last_commit_at now ttl

-- `_no_lease_signal_for`
abbrev pub no_lease_signal_for : SessionObservation → Bool
no_lease_signal_for s = true

unfoldable pub list_orphan_sessions : List SessionObservation → ℕ → ℕ → List SessionObservation
list_orphan_sessions ss now ttl =
    filter (λ s. no_lease_signal_for s && aged_out s.last_activity_at now ttl) ss

unfoldable pub list_orphan_worktrees : List WorktreeObservation → ℕ → ℕ → List WorktreeObservation
list_orphan_worktrees ws now ttl =
    filter (λ w. not w.is_default_branch && aged_out w.last_commit_at now ttl) ws
