-- ===== src/Queue/Labels.antt =====
-- src/ai_pr_orchestrator/v3/queue.py: the lifecycle labels of an issue. The GitHub service is a
-- parameter: a state, its label calls, and what they do when they return.
use aipro.Prelude.{
  ℕ, String, Bool, Option, none, some, List, [], ◌∷◌, ◌≡◌, not, ◌&&◌, ◌||◌, ◌==◌, string_eq, nat_eq,
  option_eq, if◌then◌else◌, contains, Result, ok, err,
}
use aipro.Config.{GitHubQueueConfig, lifecycle_labels}
use aipro.Domain.{WorkItemPhase, queued, reviewing, escalated, done, failed, cancelled}

-- The calls of `GitHubClientProtocol` on the labels of issues. A call that raises may have changed
-- the service or not.
pub record LabelClient (S : Type 0) : Type 0 where
  pub get_labels : S → ℕ → List String
  pub add_label : S → ℕ → String → S × Result (Unit {0})
  pub remove_label : S → ℕ → String → S × Result (Unit {0})
  -- An added label is on the issue, a removed one is not; other labels stay.
  pub added :
      (s s' : S) (n : ℕ) (m l : String)
      → add_label s n m ≡ (s', ok tt)
      → contains l (get_labels s' n) ≡ ((m == l) || contains l (get_labels s n))
  pub removed :
      (s s' : S) (n : ℕ) (m l : String)
      → remove_label s n m ≡ (s', ok tt)
      → contains l (get_labels s' n) ≡ (not (m == l) && contains l (get_labels s n))

-- `_phase_label`
unfoldable pub phase_label : GitHubQueueConfig → WorkItemPhase → Option String
phase_label c queued = some c.enabled_label
phase_label c reviewing = some c.review_label
phase_label c escalated = some c.needs_human_label
phase_label c done = some c.done_label
phase_label c failed = some c.error_label
phase_label c cancelled = none
phase_label c _ = some c.active_label

module _ {S : Type 0} (client : LabelClient S) (dry_run : Bool) (n : ℕ) where
  -- A call in the loop: the rest is run unless the call raised.
  abbrev pub proceed : (S → S × Result (Unit {0})) → S × Result (Unit {0}) → S × Result (Unit {0})
  proceed rest (s, ok _) = rest s
  proceed rest (s, err e) = (s, err e)

  -- The loop of `_apply_phase_labels` over the lifecycle labels; `current` was read before it.
  unfoldable pub sync_labels : Option String → List String → List String → S → S × Result (Unit {0})
  sync_labels target current [] s = (s, ok tt)
  sync_labels target current (l ∷ ls) s =
      let rest = sync_labels target current ls in
      if target == some l
      then (if not (contains l current) && not dry_run
          then proceed rest (client.add_label s n l)
          else rest s)
      else if contains l current && not dry_run
      then proceed rest (client.remove_label s n l)
      else rest s

  unfoldable pub apply_phase_labels : GitHubQueueConfig → WorkItemPhase → S → S × Result (Unit {0})
  apply_phase_labels c phase s =
      sync_labels (phase_label c phase) (client.get_labels s n) (lifecycle_labels c) s
