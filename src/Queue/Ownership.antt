-- ===== src/Queue/Ownership.antt =====
-- Who may change a claim: the owner while the lease runs, anybody once it has run out.
use aipro.Prelude.{
  ℕ, ◌+◌, ◌≤◌, String, Bool, true, false, Option, none, some, not, contains, ◌==◌, string_eq,
  eq_iff, Result, ok, err, no_active_claim, claim_conflict, domain_error, ◌≡◌, ◌⊎◌, refl, sym, ap,
  ◌∙◌, arith, Bool-cases, inl, inr, ok_inj, ltb_false→le, le→ltb_false,
}
use aipro.Prelude.Dict.{lookup, or_else, lookup-update}
use aipro.Config.{seconds}
use aipro.Domain.{GitHubIssueRef, is_terminal, is_queued, claiming, stamp}
use aipro.Domain.Identity.{slug}
use aipro.Domain.State.{WorkflowState}
use aipro.Queue.Claim.{Claim, is_stale, claim_from_state, to_dict}
use aipro.Queue.Attribution.{to_dict-Unique, lookup-to_dict}
use aipro.Queue.Store.{GitHubIssueQueue, load_state, save_state}
use aipro.Queue.Lifecycle.{
  lease_end, new_claim, is_enabled, other_item, save_claim, claim, as_claim_conflict, renewed,
  heartbeat, stale_claim, is_claim_stale, reclaim_expired, requeued, claimed_state, as_label_sync,
  set_labels,
}
use aipro.Queue.Versions.{chain-ok, read-ok, guard-ok, pair_error}

same_text : (a b : String) → not (a == b) ≡ false → a ≡ b
same_text a b h = (eq_iff a b).0 (ground (arith, h))

not_refused : (b : Bool) → not b ≡ false → b ≡ true
not_refused true h = refl
not_refused false h = cc

not_both : not false ≡ false → ⊥
not_both h = cc

renewed_lease :
    {S B : Type 0} (q : GitHubIssueQueue S B) (state : WorkflowState) (c : Claim) (now : ℕ)
    → lookup "lease_expires_at" (renewed q state c now).extras
      ≡ some (stamp (now + seconds q.cfg.lease_seconds))
renewed_lease q state c now =
    lookup-update "lease_expires_at" state.extras (to_dict longer) (to_dict-Unique longer)
    ∙ ap (λ o. or_else o (lookup "lease_expires_at" state.extras)) (lookup-to_dict longer)
  where
    longer : Claim
    longer = record c { lease_expires_at = lease_end q.cfg now; heartbeat_at = some now }

module _ {S B : Type 0} (q : GitHubIssueQueue S B) where
  -- The two ways in which a claim is saved.
  save_claim-ok :
      (s t : S) (state new : WorkflowState) (c : Claim) (now : ℕ) (o : Option WorkflowState)
      → save_claim q s state c now o ≡ (t, ok new)
      → (o ≡ none) × (state ≡ new)
        ⊎ ((old : WorkflowState) × (o ≡ some old)
            × (is_queued old.phase ≡ true)
            × (requeued q state old c now ≡ new))
  unfolding save_claim
  save_claim-ok s t state new c now none h =
      let (u, x, saved, done) = chain-ok (save_state q s state none) _ h in
      inl (refl, ok_inj (ap (λ p. p.1) done))
  save_claim-ok s t state new c now (some old) h = elim (Bool-cases (is_queued old.phase)) [
    | inl e ↦
        let (u, x, saved, done) =
          chain-ok (save_state q s (requeued q state old c now) (some old.updated_at)) _
            (rw e at h) in
        inr (old, refl, e, ok_inj (ap (λ p. p.1) done))
    | inr e ↦ absurd (pair_error (rw e at h))
  ]

  conflict-ok :
      {A : Type 0} (p : S × Result A) {t : S} {a : A}
      → as_claim_conflict p ≡ (t, ok a)
      → p ≡ (t, ok a)
  conflict-ok (s, ok a) h = h
  conflict-ok (s, err e) h = absurd (pair_error h)

  -- A heartbeat that returns came from the host of the claim while the lease had not run out, and
  -- gives a state of the same run, phase and history in which the lease runs for its full time from
  -- then on.
  pub heartbeat-renewed :
      (s t : S) (state new : WorkflowState) (now : ℕ)
      → heartbeat q s state now ≡ (t, ok new)
      → (c : Claim) × (claim_from_state state ≡ ok c)
        × (c.host_id ≡ q.host_id)
        × (now ≤ c.lease_expires_at)
        × (new ≡ renewed q state c now)
        × (lookup "lease_expires_at" new.extras ≡ some (stamp (now + seconds q.cfg.lease_seconds)))
  unfolding heartbeat
  heartbeat-renewed s t state new now h =
      let (c, claimed, h1) = read-ok s (claim_from_state state) _ h in
      let (own, h2) = guard-ok s (not (c.host_id == q.host_id)) claim_conflict _ h1 in
      let (fresh, h3) = guard-ok s (is_stale c now) claim_conflict _ h2 in
      let (u, x, saved, done) =
        chain-ok (save_state q s (renewed q state c now) (some state.updated_at)) _ h3 in
      let same = ok_inj (ap (λ p. p.1) done) in
      let lease =
        ap (λ x. lookup "lease_expires_at" x.extras) (sym same) ∙ renewed_lease q state c now in
      (
        c,
        claimed,
        same_text c.host_id q.host_id own,
        ltb_false→le c.lease_expires_at now fresh,
        sym same,
        lease,
      )

  -- At one instant a claim cannot be both renewed and taken over: if a heartbeat returns, then
  -- reclaiming the state, by whichever queue, returns none.
  pub reclaim_expired-heartbeat :
      (p : GitHubIssueQueue S B) (s t u v : S) (state new other : WorkflowState)
      (issue : GitHubIssueRef) (run_id : String) (branch worktree : Option String)
      (pr_number : Option ℕ) (now : ℕ)
      → heartbeat q s state now ≡ (t, ok new)
      → ¬ (reclaim_expired p u issue state run_id branch worktree pr_number now ≡ (v, ok other))
  unfolding reclaim_expired is_claim_stale
  reclaim_expired-heartbeat p s t u v state new other issue run_id branch worktree pr_number now h
        r =
      let (c, claimed, own, alive, made, rest) = heartbeat-renewed s t state new now h in
      let (same, r1) = guard-ok u (other_item p issue state) domain_error _ r in
      let (going, r2) = guard-ok u (is_terminal state.phase) no_active_claim _ r1 in
      let (stale, asked, r3) = read-ok u (stale_claim p (claim_from_state state) now) _ r2 in
      let (expired, r4) = guard-ok u (not stale) claim_conflict _ r3 in
      let fresh =
        ap (λ x. stale_claim p x now) claimed ∙ ap ok (le→ltb_false c.lease_expires_at now alive) in
      not_both (ap not (ok_inj (sym fresh ∙ asked)) ∙ expired)

  -- A claim that returns was for an issue that carries the opt-in label and had no state or a queued
  -- one, and gives a claiming state of the run asked for, with the findings and the archive of the
  -- queued one.
  pub claim-load_state :
      (s t : S) (issue : GitHubIssueRef) (run_id : String) (branch worktree : Option String)
      (pr_number : Option ℕ) (now : ℕ) (new : WorkflowState)
      → claim q s issue run_id branch worktree pr_number now ≡ (t, ok new)
      → (contains q.cfg.opt_in_label (q.labels.get_labels s issue.number) ≡ true)
        × ((load_state q s (slug issue) ≡ ok none)
            ⊎ ((old : WorkflowState) × (load_state q s (slug issue) ≡ ok (some old))
                × (is_queued old.phase ≡ true)
                × (new.findings ≡ old.findings)
                × (new.archived ≡ old.archived)))
        × (new.phase ≡ claiming)
        × (new.run_id ≡ run_id)
        × (new.updated_at ≡ now)
  unfolding claim
  claim-load_state s t issue run_id branch worktree pr_number now new h =
      let c = new_claim q run_id claiming branch worktree pr_number now in
      let (enabled, h1) = guard-ok s (not (is_enabled q s issue)) claim_conflict _ h in
      let (existing, loaded, h2) = read-ok s (load_state q s (slug issue)) _ h1 in
      let (u, state, saved, h3) =
        chain-ok (as_claim_conflict (save_claim q s (claimed_state q issue c now) c now existing)) _
          h2 in
      let (v, x, labelled, done) = chain-ok (as_label_sync (set_labels q issue claiming u)) _ h3 in
      let same = ok_inj (ap (λ p. p.1) done) in
      elim (save_claim-ok s u (claimed_state q issue c now) state c now existing
        (conflict-ok _ saved)) [
          | inl (e, made) ↦
              let is = made ∙ same in
              (
                not_refused (is_enabled q s issue) enabled,
                inl (loaded ∙ ap ok e),
                ap (λ z. z.phase) (sym is),
                ap (λ z. z.run_id) (sym is),
                ap (λ z. z.updated_at) (sym is),
              )
          | inr (old, e, waiting, made) ↦
              let is = made ∙ same in
              (
                not_refused (is_enabled q s issue) enabled,
                inr (
                  old,
                  loaded ∙ ap ok e,
                  waiting,
                  ap (λ z. z.findings) (sym is),
                  ap (λ z. z.archived) (sym is),
                ),
                ap (λ z. z.phase) (sym is),
                ap (λ z. z.run_id) (sym is),
                ap (λ z. z.updated_at) (sym is),
              )
        ]
