-- ===== src/Queue/Versions.antt =====
-- A saved state replaced the version that the writer had read, and was read back.
use aipro.Prelude.{
  ℕ, Bool, true, false, Option, none, some, not, ◌==◌, nat_eq, Result, ok, err, Error, raise_if,
  state_conflict, ◌≡◌, refl, ap, ◌∙◌, subst, arith, Bool-cases, inl, inr,
}
use aipro.Domain.{GitHubIssueRef}
use aipro.Domain.State.{WorkflowState}
use aipro.Queue.Compaction.{compacted}
use aipro.Queue.Store.{
  GitHubIssueQueue, StoredComment, Decoded, no_block, not_json, not_state, holds, chain, issue_ref,
  state_comment, same_version, verified, reread, replace_state, save_update, save_state,
}

-- What a chain of calls that returned went through.
pub chain-ok :
    {S A C : Type 0} (p : S × Result A) (next : A → S → S × Result C) {t : S} {c : C}
    → chain p next ≡ (t, ok c)
    → (s : S) × (a : A) × (p ≡ (s, ok a)) × (next a s ≡ (t, ok c))
chain-ok (s, ok a) next h = (s, a, refl, h)
chain-ok (s, err e) next h = cc

pub read-ok :
    {S A C : Type 0} (s : S) (r : Result A) (next : A → S → S × Result C) {t : S} {c : C}
    → chain (s, r) next ≡ (t, ok c)
    → (a : A) × (r ≡ ok a) × (next a s ≡ (t, ok c))
read-ok s (ok a) next h = (a, refl, h)
read-ok s (err e) next h = cc

pub guard-ok :
    {S C : Type 0} (s : S) (test : Bool) (e : Error) (next : Unit {0} → S → S × Result C) {t : S}
    {c : C}
    → chain (s, raise_if test e) next ≡ (t, ok c)
    → (test ≡ false) × (next tt s ≡ (t, ok c))
guard-ok s false e next h = (refl, h)
guard-ok s true e next h = cc

same_number : (a b : ℕ) → not (a == b) ≡ false → a ≡ b
same_number a b h = ground arith

raise_if-passed : (test : Bool) (e : Error) → raise_if test e ≡ ok tt → test ≡ false
raise_if-passed false e h = refl
raise_if-passed true e h = cc

abbrev one_raised : Result (Unit {0})
one_raised = err state_conflict

-- A pair of a service and an exception.
abbrev pub raised : {S A : Type 0} → S → Error → S × Result A
raised s e = (s, err e)

abbrev pub returned : {S A : Type 0} → S → A → S × Result A
returned s a = (s, ok a)

pub pair_error : {S A : Type 0} {s t : S} {e : Error} {a : A} → raised s e ≡ returned t a → ⊥
pair_error h = cc

module _ {S B : Type 0} (q : GitHubIssueQueue S B) (version : ℕ) where
  same_version-ok :
      (d : Decoded)
      → same_version q version d ≡ ok tt
      → (x : WorkflowState) × (d ≡ holds x) × (x.updated_at ≡ version)
  same_version-ok no_block h = cc
  same_version-ok not_json h = cc
  same_version-ok not_state h = cc
  same_version-ok (holds x) h = (
    x,
    refl,
    same_number x.updated_at version
        (raise_if-passed (not (x.updated_at == version)) state_conflict h),
  )

  verified-ok :
      (o : Option (StoredComment B))
      → verified q version o ≡ ok tt
      → (v : StoredComment B) × (x : WorkflowState) × (o ≡ some v)
        × (q.codec.decode v.body ≡ holds x)
        × (x.updated_at ≡ version)
  verified-ok none h = cc
  verified-ok (some c) h = elim (Bool-cases (not (q.codec.has_any_marker c.body))) [
    | inl t ↦ absurd (refused (rw t at h))
    | inr t ↦
        let (x, at, same) = same_version-ok (q.codec.decode c.body) (rw t at h) in
        (c, x, refl, at, same)
  ]
    where
      refused : one_raised ≡ ok tt → ⊥
      refused e = cc

  -- The comment that a save edited: it held the expected version, its block was replaced by one edit,
  -- and what the edit returned was read back with the new version.
  abbrev pub Replaced : S → S → ℕ → WorkflowState → StoredComment B → Type 0
  Replaced s t expected block c =
      (old : WorkflowState) × (edited : StoredComment B) × (v : StoredComment B)
      × (x : WorkflowState) × (q.codec.decode c.body ≡ holds old)
      × (old.updated_at ≡ expected)
      × (q.client.edit_comment s c.id (q.codec.replace_block c.body block) ≡ (t, ok edited))
      × (reread q t edited.id ≡ some v)
      × (q.codec.decode v.body ≡ holds x)
      × (x.updated_at ≡ version)

  replace_state-ok :
      (s t : S) (c : StoredComment B) (block : WorkflowState) (expected : ℕ) (d : Decoded)
      → q.dry_run ≡ false
      → q.codec.decode c.body ≡ d
      → replace_state q s c version block expected d ≡ (t, ok tt)
      → Replaced s t expected block c
  replace_state-ok s t c block expected no_block wet e h = cc
  replace_state-ok s t c block expected not_json wet e h = cc
  replace_state-ok s t c block expected not_state wet e h = cc
  replace_state-ok s t c block expected (holds old) wet e h =
      elim (Bool-cases (not (old.updated_at == expected))) [
        | inl stale ↦ absurd (pair_error (rw stale at h))
        | inr same ↦
            let (u, edited, made, rest) =
              chain-ok (q.client.edit_comment s c.id (q.codec.replace_block c.body block)) _
                (rw (same, wet) at h) in
            let (v, x, at, decoded, new) =
              verified-ok (reread q u edited.id) (ap (λ p. p.1) rest) in
            (
              old,
              edited,
              v,
              x,
              e,
              same_number old.updated_at expected same,
              made ∙ ap (λ z. (z, ok edited)) (ap (λ p. p.0) rest),
              subst (λ z. reread q z edited.id ≡ some v) (ap (λ p. p.0) rest) at,
              decoded,
              new,
            )
      ]

  save_update-ok :
      (s t : S) (o : Option (StoredComment B)) (block : WorkflowState) (expected : ℕ)
      → q.dry_run ≡ false
      → save_update q s o version block expected ≡ (t, ok tt)
      → (c : StoredComment B) × (o ≡ some c) × Replaced s t expected block c
  unfolding save_update
  save_update-ok s t none block expected wet h = absurd (pair_error (rw wet at h))
  save_update-ok s t (some c) block expected wet h =
      (c, refl, replace_state-ok s t c block expected (q.codec.decode c.body) wet refl h)

module _ {S B : Type 0} (q : GitHubIssueQueue S B) where
  -- A save with a precondition that returns, other than in a dry run, found the state comment of the
  -- issue that the state names, and it held exactly the version expected; GitHub returned from the
  -- edit of that very comment, by which the state as it fits into a comment replaced the old one; and
  -- the comment that the edit returned, read back behind it, holds the new version.
  pub save_state-Replaced :
      (s t : S) (state : WorkflowState) (expected : ℕ)
      → q.dry_run ≡ false
      → save_state q s state (some expected) ≡ (t, ok tt)
      → (issue : GitHubIssueRef) × (block : WorkflowState) × (c : StoredComment B) × (issue_ref q
            state.work_item_id
          ≡ ok issue)
        × (compacted q.cfg q.payload_chars state ≡ ok block)
        × (state_comment q s issue.number ≡ some c)
        × Replaced q state.updated_at s t expected block c
  unfolding save_state
  save_state-Replaced s t state expected wet h =
      let (issue, bound, rest) = read-ok s (issue_ref q state.work_item_id) _ h in
      let (block, fitted, saved) = read-ok s (compacted q.cfg q.payload_chars state) _ rest in
      let (c, found, replaced) =
        save_update-ok q state.updated_at s t (state_comment q s issue.number) block expected wet
          saved in
      (issue, block, c, bound, fitted, found, replaced)
