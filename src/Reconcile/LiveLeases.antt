-- ===== src/Reconcile/LiveLeases.antt =====
-- What a live lease references is never ordered to be cleaned, whichever work item is planned.
use aipro.Prelude.{
  String, Bool, true, false, some, List, [], ◌∷◌, ◌++◌, ◌≡◌, ◌≢◌, refl, sym, ap, subst, arith, In,
  In-append_left, In-append_right, In-filter_intro, contains, contains_iff, string_eq, Bool-cases,
  Option-cases, inl, inr, ok, false≢true, ◌∙◌, All, All-In, All-append, some_inj,
}
use aipro.Queue.Claim.{Claim, is_stale}
use aipro.Reconcile.{
  Action, ActionKind, clean_orphan_session, clean_orphan_worktree, noop, SessionObservation,
  ReconciliationInputs,
}
use aipro.Reconcile.Table.{crash_decision_table}
use aipro.Reconcile.Rows.{first_applicable-All, plan_crash_point-eq-some}
use aipro.Reconcile.Planner.{
  Planner, plan_branch_moved, plan_stale_lease, plan_duplicate_sessions, bound_action,
  plan_crash_point, plan_orphan_sessions, plan_orphan_worktrees, plan_recovery, plan_one, plan_many,
  in_terminal_phase, collect_live_branches, collect_live_session_ids, live_branch, live_sessions,
  owned_session, session_ids, item_action,
}
use aipro.Reconcile.Guards.{All-unless, plan_many-All}
use aipro.Reconcile.Orphans.{plan_orphan_sessions_iff, plan_orphan_worktrees_iff}

abbrev cleans : ActionKind → Bool
cleans clean_orphan_session = true
cleans clean_orphan_worktree = true
cleans _ = false

abbrev Keeps : Action → Type 0
Keeps a = cleans a.kind ≡ false

branch_moved-Keeps : (i : ReconciliationInputs) → All Keeps (plan_branch_moved i)
unfolding plan_branch_moved
branch_moved-Keeps i = ground arith

stale_lease-Keeps : (i : ReconciliationInputs) → All Keeps (plan_stale_lease i)
unfolding plan_stale_lease
stale_lease-Keeps i = ground arith

duplicate_sessions-Keeps : (i : ReconciliationInputs) → All Keeps (plan_duplicate_sessions i)
unfolding plan_duplicate_sessions
duplicate_sessions-Keeps i = ground arith

crash_point-Keeps :
    (p : Planner) (i : ReconciliationInputs) (a : Action)
    → plan_crash_point p.lanes i ≡ some a
    → Keeps a
unfolding bound_action crash_decision_table
crash_point-Keeps p i a h =
    let (r, taken, e) = plan_crash_point-eq-some p.lanes i a h in
    let kept : cleans r.action ≡ false =
      first_applicable-All (λ x. cleans x.action ≡ false) _ crash_decision_table r (ground arith)
        taken in
    subst Keeps e (ground (arith, kept))

-- The lists of live sessions and branches: a cleaning action names nothing that stands in them.
module _ (ids branches : List String) where
  abbrev Spares : Action → Type 0
  Spares a =
      (a.kind ≡ clean_orphan_session
        → (x : String) → a.session_id ≡ some x
        → contains x ids ≡ false)
      × (a.kind ≡ clean_orphan_worktree
          → (x : String) → a.branch ≡ some x
          → contains x branches ≡ false)

  Spares-of_Keeps : (acts : List Action) → All Keeps acts → All Spares acts
  Spares-of_Keeps [] h = tt
  Spares-of_Keeps (a ∷ acts) h = (
    (λ e. absurd (ground (arith, h.0)), λ e. absurd (ground (arith, h.0))),
    Spares-of_Keeps acts h.1,
  )

  All-of_In :
      {P : Action → Type 0} (acts : List Action) → ((a : Action) → In a acts → P a) → All P acts
  All-of_In [] h = tt
  All-of_In (a ∷ acts) h = (h a (inl refl), All-of_In acts (λ b m. h b (inr m)))

  plan_recovery-Spares :
      (p : Planner) (i : ReconciliationInputs) → All Spares (plan_recovery p branches ids i)
  unfolding plan_recovery
  plan_recovery-Spares p i = elim (Option-cases (plan_crash_point p.lanes i)) [
    | inl e ↦ rw e orphans
    | inr (a, e) ↦ rw e ((Spares-of_Keeps (a ∷ []) (crash_point-Keeps p i a e, tt)).0, orphans)
  ]
    where
      sessions :
          (a : Action)
          → In a (plan_orphan_sessions p.cleanup i.now.instant ids i.sessions)
          → Spares a
      sessions a m =
          let (s, n, o, e) =
            (plan_orphan_sessions_iff p.cleanup i.now.instant ids a i.sessions).0 m in
          subst Spares e
            (λ _ x q. subst (λ y. contains y ids ≡ false) (some_inj q) o.unreferenced, λ q. cc)

      worktrees :
          (a : Action)
          → In a (plan_orphan_worktrees p.cleanup i.now.instant branches i.worktrees)
          → Spares a
      worktrees a m =
          let (w, n, o, e) =
            (plan_orphan_worktrees_iff p.cleanup i.now.instant branches a i.worktrees).0 m in
          subst Spares e
            (λ q. cc, λ _ x q. subst (λ y. contains y branches ≡ false) (some_inj q) o.unreferenced)

      orphans : All Spares (
          plan_orphan_sessions p.cleanup i.now.instant ids i.sessions
          ++ plan_orphan_worktrees p.cleanup i.now.instant branches i.worktrees)
      orphans =
          All-append Spares (plan_orphan_sessions p.cleanup i.now.instant ids i.sessions) _
            (All-of_In _ sessions) (All-of_In _ worktrees)

  plan_one-Spares :
      (p : Planner) (i : ReconciliationInputs) → All Spares (plan_one p branches ids i)
  unfolding plan_one
  plan_one-Spares p i = elim (Bool-cases (in_terminal_phase i)) [
    | inl t ↦ rw t (Spares-of_Keeps (item_action i noop ∷ []) (refl, tt))
    | inr t ↦ rw t (
        All-unless Spares (plan_branch_moved i) _ (Spares-of_Keeps _ (branch_moved-Keeps i)) (
          All-unless Spares (plan_stale_lease i) _ (Spares-of_Keeps _ (stale_lease-Keeps i)) (
            All-unless Spares (plan_duplicate_sessions i) _
              (Spares-of_Keeps _ (duplicate_sessions-Keeps i)) (plan_recovery-Spares p i))))
  ]

plan_many-Spares :
    (p : Planner) (is : List ReconciliationInputs) (acts : List Action)
    → plan_many p is ≡ ok acts
    → All (Spares (collect_live_session_ids is) (collect_live_branches is)) acts
plan_many-Spares p is acts = plan_many-All _ p is acts (λ e. cc, λ e. cc) (plan_one-Spares _ _ p)

In-session_ids :
    (s : SessionObservation) (ss : List SessionObservation)
    → In s ss
    → In s.session_id (session_ids ss)
unfolding session_ids
In-session_ids s [] m = m
In-session_ids s (x ∷ ss) (inl e) = inl (ap (λ y. y.session_id) e)
In-session_ids s (x ∷ ss) (inr m) = inr (In-session_ids s ss m)

-- A claim that is on record for a work item and whose lease has not expired.
pub record HoldsLease (i : ReconciliationInputs) (c : Claim) : Type 0 where
  pub claimed : i.observation.claim ≡ some c
  pub fresh : is_stale c i.now.instant ≡ false

In-live_sessions :
    (i : ReconciliationInputs) (c : Claim) (s : SessionObservation)
    → HoldsLease i c
    → In s i.sessions
    → owned_session i c s ≡ true
    → In s.session_id (live_sessions i)
unfolding live_sessions
In-live_sessions i c s lease m o =
    rw (lease.claimed, lease.fresh)
      (In-session_ids s _ (In-filter_intro (owned_session i c) s i.sessions m o))

In-collect_live_session_ids :
    (x : String) (i : ReconciliationInputs) (is : List ReconciliationInputs)
    → In i is
    → In x (live_sessions i)
    → In x (collect_live_session_ids is)
unfolding collect_live_session_ids
In-collect_live_session_ids x i [] n m = n
In-collect_live_session_ids x i (j ∷ is) (inl e) m =
    In-append_left x (live_sessions j) _ (subst (λ y. In x (live_sessions y)) (sym e) m)
In-collect_live_session_ids x i (j ∷ is) (inr n) m =
    In-append_right x (live_sessions j) _ (In-collect_live_session_ids x i is n m)

In-collect_live_branches :
    (b : String) (i : ReconciliationInputs) (is : List ReconciliationInputs)
    → In i is
    → In b (live_branch i)
    → In b (collect_live_branches is)
unfolding collect_live_branches
In-collect_live_branches b i [] n m = n
In-collect_live_branches b i (j ∷ is) (inl e) m =
    In-append_left b (live_branch j) _ (subst (λ y. In b (live_branch y)) (sym e) m)
In-collect_live_branches b i (j ∷ is) (inr n) m =
    In-append_right b (live_branch j) _ (In-collect_live_branches b i is n m)

module _ (p : Planner) (is : List ReconciliationInputs) (acts : List Action)
    (i : ReconciliationInputs) (c : Claim) (a : Action) where
  -- If work item `i` of the inputs holds a live lease, no action of the plan, for whichever work
  -- item, cleans a session of `i` whose run, if it has one, is the run of the lease.
  pub live_session_kept :
      (s : SessionObservation)
      → plan_many p is ≡ ok acts
      → In i is
      → HoldsLease i c
      → In s i.sessions
      → owned_session i c s ≡ true
      → In a acts
      → a.kind ≡ clean_orphan_session
      → a.session_id ≢ some s.session_id
  live_session_kept s planned n lease m o here kind named =
      let listed =
        In-collect_live_session_ids s.session_id i is n (In-live_sessions i c s lease m o) in
      let absent =
        (All-In _ a acts (plan_many-Spares p is acts planned) here).0 kind s.session_id named in
      false≢true (sym absent ∙ (contains_iff s.session_id _).1 listed)

  -- If work item `i` of the inputs holds a live lease on a branch, no action of the plan, for
  -- whichever work item, cleans a worktree of that branch.
  pub live_branch_kept :
      (b : String)
      → plan_many p is ≡ ok acts
      → In i is
      → HoldsLease i c
      → c.branch ≡ some b
      → In a acts
      → a.kind ≡ clean_orphan_worktree
      → a.branch ≢ some b
  live_branch_kept b planned n lease on here kind named =
      let held : In b (live_branch i) = rw (lease.claimed, on, lease.fresh) (inl refl) in
      let absent = (All-In _ a acts (plan_many-Spares p is acts planned) here).1 kind b named in
      false≢true (sym absent ∙ (contains_iff b _).1 (In-collect_live_branches b i is n held))
