-- ===== src/Foreman/Saving.antt =====
-- src/ai_pr_orchestrator/v3/foreman.py: `_save_fresh` and `_cleanup_terminal_worktree`.
use aipro.Prelude.{
  ℕ, String, Bool, true, false, Option, none, some, ◌≡◌, ◌⊎◌, refl, inl, inr, ok, err, Result, ap,
  arith, ◌==◌, string_eq,
}
use aipro.Prelude.Dict.{Dict, lookup}
use aipro.Domain.{GitHubIssueRef, Value, is_terminal}
use aipro.Domain.Identity.{slug}
use aipro.Domain.State.{WorkflowState, post_init}
use aipro.Foreman.Act.{◌>>◌, if◌then◌else◌, >>=-eq-ok, guard-eq-ok, attempt, caught, lift, return}
use aipro.Foreman.Services.{ForemanPolicyLoop}
use aipro.Foreman.Extras.{text_entry}
use aipro.Foreman.Claims.{
  same_owner, own, owned, load, save_fresh, cleanup_terminal_worktree, clean_terminal,
  clean_worktree, cleanup_loaded, is_cancelled, datetime_now, stop_developer_before_cleanup,
}

post_init-eq : (x : WorkflowState) {y : WorkflowState} → post_init x ≡ ok y → y ≡ x
unfolding post_init
post_init-eq x h = ground arith

module _ {S : Type 0} (f : ForemanPolicyLoop S) (issue : GitHubIssueRef) where
  owned-eq-ok :
      (state : WorkflowState) (o : Option WorkflowState) (s : S) {s1 : S} {fresh : WorkflowState}
      → owned f state o s ≡ (s1, ok fresh)
      → (o ≡ some fresh) × (same_owner fresh state ≡ true) × (s ≡ s1)
  unfolding if◌then◌else◌
  owned-eq-ok state none s h = cc
  owned-eq-ok state (some x) s h = ground arith

  load-eq-ok :
      (state : WorkflowState) (s : S) {s1 : S} {fresh : WorkflowState}
      → load f issue state s ≡ (s1, ok fresh)
      → (f.queue.load_state (slug issue) s ≡ (s1, ok (some fresh)))
        × (same_owner fresh state ≡ true)
  unfolding load
  load-eq-ok state s h =
      let (o, s0, p, q) = >>=-eq-ok _ _ s h in
      let (e, own, e1) = owned-eq-ok state o s0 q in (cc, own)

  -- What the last three parts of a save say, once they have returned.
  written :
      (fresh : WorkflowState) (s1 : S) (now : ℕ) (extras : Dict Value) {s2 s3 s4 s5 : S}
      {updated new : WorkflowState} {u : Unit {0}}
      → datetime_now f s1 ≡ (s3, ok now)
      → lift (post_init (record fresh { extras = extras; updated_at = now })) s3 ≡ (s4, ok updated)
      → f.queue.save_state updated (some fresh.updated_at) s4 ≡ (s5, ok u)
      → return updated s5 ≡ (s2, ok new)
      → (new ≡ record fresh { extras = extras; updated_at = f.now s1 })
        × (f.queue.save_state new (some fresh.updated_at) s1 ≡ (s2, ok tt))
  written fresh s1 now extras q made saved last =
      let made_is = post_init-eq _ (ap (λ x. x.1) made) in (cc, cc)

  -- A save under `_save_fresh` that returns read the authoritative state first, which has the owner of
  -- the state in hand and is not terminal; it wrote that state with the new extras and the time of the
  -- clock, under the version that it read.
  pub save_fresh-saved :
      (state : WorkflowState) (extras : Dict Value) (s : S) {s2 : S} {new : WorkflowState}
      → save_fresh f issue state extras s ≡ (s2, ok new)
      → (fresh : WorkflowState) × (s1 : S) × (f.queue.load_state (slug issue) s
          ≡ (s1, ok (some fresh)))
        × (same_owner fresh state ≡ true)
        × (is_terminal fresh.phase ≡ false)
        × (new ≡ record fresh { extras = extras; updated_at = f.now s1 })
        × (f.queue.save_state new (some fresh.updated_at) s1 ≡ (s2, ok tt))
  unfolding save_fresh
  save_fresh-saved state extras s h =
      let (fresh, s1, p, h1) = >>=-eq-ok _ _ s h in
      let (found, owner) = load-eq-ok state s p in
      let (active, h2) = guard-eq-ok _ _ _ s1 h1 in
      let (now, s3, q, h3) = >>=-eq-ok _ _ s1 h2 in
      let (updated, s4, made, h4) = >>=-eq-ok _ _ s3 h3 in
      let (u, s5, saved, h5) = >>=-eq-ok _ _ s4 h4 in
      let (new_is, saved_is) = written fresh s1 now extras q made saved h5 in
      (fresh, s1, found, owner, active, new_is, saved_is)

  clean_worktree-ok :
      (x : WorkflowState) (w : Option String) (s : S) → (clean_worktree f x w s).1 ≡ ok tt
  unfolding if◌then◌else◌ attempt
  clean_worktree-ok x none s = refl
  clean_worktree-ok x (some w) s = branch (w == "")
    where
      swallowed : (y : S × Result (Unit {0})) → (caught y (λ e. return tt)).1 ≡ ok tt
      swallowed (s1, ok u) = refl
      swallowed (s1, err e) = refl

      branch :
          (b : Bool)
          → ((if b
                then return tt
                else attempt
                    (stop_developer_before_cleanup f x >> f.git.cleanup_worktree w)
                    (λ e. return tt))
              s).1
            ≡ ok tt
      branch true = refl
      branch false = swallowed ((stop_developer_before_cleanup f x >> f.git.cleanup_worktree w) s)

  clean_terminal-own :
      (o : Option WorkflowState) (s : S)
      → ((clean_terminal f o s).1 ≡ ok tt)
        × ((clean_terminal f o s ≡ (s, ok tt))
            ⊎ ((x : WorkflowState) × (o ≡ some x)
                × (own f x ≡ true)
                × (is_terminal x.phase ≡ true)
                × (is_cancelled x.phase ≡ false)))
  unfolding if◌then◌else◌
  clean_terminal-own none s = (refl, inl refl)
  clean_terminal-own (some x) s =
      cases (own f x) (is_terminal x.phase) (is_cancelled x.phase) refl refl refl
    where
      cases :
          (a b c : Bool)
          → own f x ≡ a
          → is_terminal x.phase ≡ b
          → is_cancelled x.phase ≡ c
          → ((clean_terminal f (some x) s).1 ≡ ok tt)
            × ((clean_terminal f (some x) s ≡ (s, ok tt))
                ⊎ ((y : WorkflowState) × (some x ≡ some y)
                    × (own f y ≡ true)
                    × (is_terminal y.phase ≡ true)
                    × (is_cancelled y.phase ≡ false)))
      cases true true false p q r = (
        rw (p, q, r) (clean_worktree-ok x (text_entry (lookup "worktree" x.extras)) s),
        inr (x, refl, p, q, r),
      )
      cases true true true p q r = (rw (p, q, r) refl, inl (rw (p, q, r) refl))
      cases true false c p q r = (rw (p, q) refl, inl (rw (p, q) refl))
      cases false b c p q r = (rw p refl, inl (rw p refl))

  -- The cleanup at the end of a run never raises. It does nothing beyond reading the state, unless
  -- that state is held by this run on this host and is terminal, and not cancelled.
  pub cleanup_terminal_worktree-own :
      (s : S)
      → ((cleanup_terminal_worktree f issue s).1 ≡ ok tt)
        × ((cleanup_terminal_worktree f issue s ≡ ((f.queue.load_state (slug issue) s).0, ok tt))
            ⊎ ((x : WorkflowState) × ((f.queue.load_state (slug issue) s).1 ≡ ok (some x))
                × (own f x ≡ true)
                × (is_terminal x.phase ≡ true)
                × (is_cancelled x.phase ≡ false)))
  unfolding cleanup_terminal_worktree
  cleanup_terminal_worktree-own s = on_loaded (f.queue.load_state (slug issue) s)
    where
      on_loaded :
          (y : S × Result (Option WorkflowState))
          → ((cleanup_loaded f y).1 ≡ ok tt)
            × ((cleanup_loaded f y ≡ (y.0, ok tt))
                ⊎ ((x : WorkflowState) × (y.1 ≡ ok (some x))
                    × (own f x ≡ true)
                    × (is_terminal x.phase ≡ true)
                    × (is_cancelled x.phase ≡ false)))
      on_loaded (s1, err e) = (refl, inl refl)
      on_loaded (s1, ok o) = elim (clean_terminal-own o s1).1 [
        | inl kept ↦ ((clean_terminal-own o s1).0, inl kept)
        | inr (x, e, p, q, r) ↦ ((clean_terminal-own o s1).0, inr (x, ap ok e, p, q, r))
      ]
