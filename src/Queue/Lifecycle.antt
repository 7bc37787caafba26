-- ===== src/Queue/Lifecycle.antt =====
-- src/ai_pr_orchestrator/v3/queue.py: claim, heartbeat, transition, abandon and reclaim. A state that
-- is given has passed its constructor. `now` is the clock's reading.
use aipro.Prelude.{
  ℕ, ◌+◌, String, Bool, true, false, Option, none, some, List, [], ◌∷◌, contains, not, ◌&&◌, ◌||◌,
  ◌==◌, string_eq, if◌then◌else◌, Eq, Result, ok, err, Error, domain_error, state_conflict,
  claim_conflict, no_active_claim, label_sync, runtime_error, ◌>>◌, ◌>>=◌, raise_if,
}
use aipro.Prelude.Dict.{lookup, has, update, without}
use aipro.Config.{GitHubQueueConfig, seconds}
use aipro.Domain.{
  GitHubIssueRef, WorkItemPhase, is_terminal, is_queued, queued, claiming, coding, reviewing,
  escalated, done, failed, cancelled, Value, null, flag, num, text, stamp, arr, obj, nil, cons, end,
  entry,
}
use aipro.Domain.Identity.{slug}
use aipro.Domain.State.{WorkflowState, post_init, transition}
use aipro.Queue.Claim.{Claim, is_stale, claim_from_state, reattributed, to_dict, phase_name}
use aipro.Queue.Labels.{apply_phase_labels}
use aipro.Queue.Store.{GitHubIssueQueue, chain, load_state, save_state}

-- `state.extras.get("lanes_stopped")` as a condition
abbrev pub holds_true : Option Value → Bool
holds_true none = false
holds_true (some null) = false
holds_true (some (flag b)) = b
holds_true (some (num n)) = if aipro.Prelude.nat_beq n 0 then false else true
holds_true (some (text t)) = if t == "" then false else true
holds_true (some (stamp t)) = true
holds_true (some (arr nil)) = false
holds_true (some (arr (cons v vs))) = true
holds_true (some (obj end)) = false
holds_true (some (obj (entry k v fs))) = true

-- `... is True`
abbrev pub is_true : Option Value → Bool
is_true (some (flag true)) = true
is_true _ = false

-- The extras of a claim that is not an owner's any more: `lease_keys` of `abandon`.
abbrev pub lease_keys : List String
lease_keys = "host_id" ∷ "claimed_at" ∷ "lease_expires_at" ∷ "heartbeat_at" ∷ []

-- `except StateConflictError`, of which ClaimConflictError is a subclass
abbrev pub conflict_of : Error → Error
conflict_of state_conflict = claim_conflict
conflict_of e = e

abbrev pub as_claim_conflict : {S A : Type 0} → S × Result A → S × Result A
as_claim_conflict (s, ok a) = (s, ok a)
as_claim_conflict (s, err e) = (s, err (conflict_of e))

-- `except Exception as exc: raise LabelSyncError`
abbrev pub as_label_sync : {S A : Type 0} → S × Result A → S × Result A
as_label_sync (s, err e) = (s, err label_sync)
as_label_sync (s, ok a) = (s, ok a)

-- `raise` where a test holds
abbrev pub refuse : {S : Type 0} → S → Bool → Error → S × Result (Unit {0})
refuse s test e = (s, raise_if test e)

-- `now + timedelta(seconds=lease_seconds)`
abbrev pub lease_end : GitHubQueueConfig → ℕ → ℕ
lease_end cfg now = now + seconds cfg.lease_seconds

module _ {S B : Type 0} (q : GitHubIssueQueue S B) where
  abbrev pub new_claim :
      String → WorkItemPhase → Option String → Option String → Option ℕ → ℕ → Claim
  new_claim run_id phase branch worktree pr_number now = record {
    run_id = run_id;
    host_id = q.host_id;
    claimed_at = now;
    lease_expires_at = lease_end q.cfg now;
    phase = phase_name phase;
    branch = branch;
    worktree = worktree;
    pr_number = pr_number;
    heartbeat_at = none;
  }

  abbrev pub is_enabled : S → GitHubIssueRef → Bool
  is_enabled s issue = contains q.cfg.opt_in_label (q.labels.get_labels s issue.number)

  abbrev pub set_labels : GitHubIssueRef → WorkItemPhase → S → S × Result (Unit {0})
  set_labels issue phase s = apply_phase_labels q.labels q.dry_run issue.number q.cfg phase s

  -- `_require_same_identity`
  abbrev pub other_item : GitHubIssueRef → WorkflowState → Bool
  other_item issue state = not (slug issue == state.work_item_id)

  -- A state that is taken over: workflow data stay, attribution is replaced.
  abbrev pub taken_over : WorkflowState → Claim → WorkItemPhase → ℕ → WorkflowState
  taken_over old claim phase now = record old {
    run_id = claim.run_id;
    phase = phase;
    updated_at = now;
    terminal_reason = none;
    extras = reattributed old.extras claim;
  }

  -- The state that claims a requeued issue.
  abbrev pub requeued : WorkflowState → WorkflowState → Claim → ℕ → WorkflowState
  requeued state old claim now = record (taken_over old claim claiming now) {
    work_item_id = state.work_item_id;
  }

  -- `_save_claim`, for the state that a claim alone makes
  unfoldable pub save_claim :
      S → WorkflowState → Claim → ℕ → Option WorkflowState → S × Result WorkflowState
  save_claim s state claim now none = chain (save_state q s state none) (λ x t. (t, ok state))
  save_claim s state claim now (some old) =
      if not (is_queued old.phase)
      then (s, err claim_conflict)
      else chain (save_state q s (requeued state old claim now) (some old.updated_at))
          (λ x t. (t, ok (requeued state old claim now)))

  -- The state of a new claim; `work_item_id_of` is the slug.
  abbrev pub claimed_state : GitHubIssueRef → Claim → ℕ → WorkflowState
  claimed_state issue claim now = record {
    work_item_id = slug issue;
    run_id = claim.run_id;
    phase = claiming;
    round_id = none;
    updated_at = now;
    terminal_reason = none;
    findings = [];
    dispositions = [];
    archived = [];
    extras = to_dict claim;
  }

  unfoldable pub claim :
      S
      → GitHubIssueRef
      → String
      → Option String
      → Option String
      → Option ℕ
      → ℕ
      → S × Result WorkflowState
  claim s issue run_id branch worktree pr_number now =
      let c = new_claim run_id claiming branch worktree pr_number now in
      chain (refuse s (not (is_enabled s issue)) claim_conflict) (λ x s1.
        chain (s1, load_state q s1 (slug issue))
          (λ existing s2.
            chain (as_claim_conflict (save_claim s2 (claimed_state issue c now) c now existing))
              (λ state s3.
                chain (as_label_sync (set_labels issue claiming s3)) (λ y s4. (s4, ok state)))))

  unfoldable pub reject : S → GitHubIssueRef → String → String → ℕ → S × Result (Unit {0})
  reject s issue run_id reason now =
      let state = record (claimed_state issue (new_claim run_id escalated none none none now) now) {
        phase = escalated;
        terminal_reason = some reason;
        extras = [];
      } in
      chain (s, post_init state)
        (λ made s1. chain (save_state q s1 made none) (λ x s2. set_labels issue escalated s2))

  abbrev pub renewed : WorkflowState → Claim → ℕ → WorkflowState
  renewed state c now = record state {
    updated_at = now;
    extras =
        update state.extras
          (to_dict (record c { lease_expires_at = lease_end q.cfg now; heartbeat_at = some now }));
  }

  unfoldable pub heartbeat : S → WorkflowState → ℕ → S × Result WorkflowState
  heartbeat s state now =
      chain (s, claim_from_state state)
        (λ c s1. chain (refuse s1 (not (c.host_id == q.host_id)) claim_conflict) (λ x s2.
          chain (refuse s2 (is_stale c now) claim_conflict) (λ y s3.
            chain (save_state q s3 (renewed state c now) (some state.updated_at))
              (λ z s4. (s4, ok (renewed state c now))))))

  unfoldable pub apply_state_labels : S → GitHubIssueRef → WorkflowState → S × Result (Unit {0})
  apply_state_labels s issue state =
      if is_terminal state.phase
        && (has "coder_turn" state.extras && not (holds_true (lookup "lanes_stopped" state.extras)))
      then chain (set_labels issue coding s) (λ x t. (t, err runtime_error))
      else set_labels issue state.phase s

  unfoldable pub move :
      S
      → GitHubIssueRef
      → WorkflowState
      → WorkItemPhase
      → Option String
      → Option String
      → ℕ
      → S × Result WorkflowState
  move s issue state phase reason round_id now =
      chain (refuse s (is_terminal state.phase) no_active_claim) (λ x s1.
        chain (refuse s1 (other_item issue state) domain_error) (λ y s2.
          chain (s2, transition now state phase round_id reason)
            (λ new s3. chain (save_state q s3 new (some state.updated_at)) (λ z s4.
              chain (as_label_sync (apply_state_labels s4 issue new)) (λ u s5. (s5, ok new))))))

  -- The authoritative state has the labels; the state that is given only names the issue.
  abbrev pub repaired : GitHubIssueRef → Option WorkflowState → S → S × Result (Unit {0})
  repaired issue none s = (s, ok tt)
  repaired issue (some current) s = apply_state_labels s issue current

  unfoldable pub repair_labels : S → GitHubIssueRef → Option WorkflowState → S × Result (Unit {0})
  repair_labels s issue hint =
      chain (refuse s (elim hint [ none ↦ false | some h ↦ other_item issue h ]) domain_error)
        (λ x s1. chain (s1, load_state q s1 (slug issue)) (λ current s2. repaired issue current s2))

  abbrev pub complete : S → GitHubIssueRef → WorkflowState → String → ℕ → S × Result WorkflowState
  complete s issue state reason now = move s issue state done (some reason) none now

  abbrev pub fail : S → GitHubIssueRef → WorkflowState → String → ℕ → S × Result WorkflowState
  fail s issue state reason now = move s issue state failed (some reason) none now

  abbrev pub cancel : S → GitHubIssueRef → WorkflowState → String → ℕ → S × Result WorkflowState
  cancel s issue state reason now = move s issue state cancelled (some reason) none now

  abbrev pub mark_review : S → GitHubIssueRef → WorkflowState → ℕ → S × Result WorkflowState
  mark_review s issue state now = move s issue state reviewing none none now

  abbrev pub mark_needs_human :
      S → GitHubIssueRef → WorkflowState → String → ℕ → S × Result WorkflowState
  mark_needs_human s issue state reason now = move s issue state escalated (some reason) none now

  -- `self.load_state(...) != state`
  abbrev pub not_current : WorkflowState → Option WorkflowState → Bool
  not_current state none = true
  not_current state (some x) = not (q.same_state x state)

  -- The drain of a claim that is the host's own, with its lanes stopped.
  abbrev pub drain : S → GitHubIssueRef → WorkflowState → ℕ → S × Result WorkflowState
  drain s issue state now =
      chain (s, claim_from_state state)
        (λ c s1. chain (refuse s1 (not (c.host_id == q.host_id)) claim_conflict) (λ x s2.
          chain (refuse s2 (not (is_true (lookup "lanes_stopped" state.extras))) claim_conflict)
            (λ y s3.
              move s3 issue (record state { extras = without lease_keys state.extras }) queued none
                none now)))

  unfoldable pub abandon : S → GitHubIssueRef → WorkflowState → ℕ → S × Result WorkflowState
  abandon s issue state now = chain (refuse s (other_item issue state) domain_error) (λ x s1.
      chain (s1, load_state q s1 state.work_item_id)
        (λ current s2. chain (refuse s2 (not_current state current) state_conflict) (λ y s3.
          if is_queued state.phase && not (has "host_id" state.extras)
          then chain (repair_labels s3 issue (some state)) (λ z s4. (s4, ok state))
          else drain s3 issue state now)))

  -- `except NoActiveClaimError: return True`; another exception goes on
  abbrev pub stale_claim : Result Claim → ℕ → Result Bool
  stale_claim (ok c) now = ok (is_stale c now)
  stale_claim (err no_active_claim) now = ok true
  stale_claim (err e) now = err e

  unfoldable pub is_claim_stale : WorkflowState → ℕ → Result Bool
  is_claim_stale state now = stale_claim (claim_from_state state) now

  unfoldable pub reclaim_expired :
      S
      → GitHubIssueRef
      → WorkflowState
      → String
      → Option String
      → Option String
      → Option ℕ
      → ℕ
      → S × Result WorkflowState
  reclaim_expired s issue state run_id branch worktree pr_number now =
      let c = new_claim run_id state.phase branch worktree pr_number now in
      let new = taken_over state c state.phase now in
      chain (refuse s (other_item issue state) domain_error) (λ x s1.
        chain (refuse s1 (is_terminal state.phase) no_active_claim) (λ y s2.
          chain (s2, is_claim_stale state now)
            (λ stale s3. chain (refuse s3 (not stale) claim_conflict) (λ z s4.
              chain (save_state q s4 new (some state.updated_at)) (λ u s5.
                chain (as_label_sync (set_labels issue state.phase s5)) (λ v s6. (s6, ok new)))))))
