-- ===== src/Queue/LabelSync.antt =====
-- The labels of an issue after they were synchronized with a phase.
use aipro.Prelude.{
  ℕ, String, Bool, true, false, Option, some, List, [], ◌∷◌, ◌≡◌, ◌⊎◌, inl, inr, refl, sym, ap, ◌∙◌,
  arith, ◌==◌, string_eq, option_eq, if◌then◌else◌, contains, Bool-cases, ==-cases, ==_refl, Error,
  Result, ok, err, subst,
}
use aipro.Config.{GitHubQueueConfig, lifecycle_labels}
use aipro.Domain.{WorkItemPhase}
use aipro.Queue.Labels.{LabelClient, phase_label, sync_labels, apply_phase_labels}

module _ {S : Type 0} (client : LabelClient S) (n : ℕ) (target : Option String)
    (current : List String) where
  abbrev on : String → S → Bool
  on l s = contains l (client.get_labels s n)

  -- Every label that the loop has yet to visit is as it was read, or already as it shall be.
  abbrev Read : List String → S → Type 0
  Read ls s =
      (l : String)
      → contains l ls ≡ true
      → (on l s ≡ contains l current) ⊎ (on l s ≡ (target == some l))

  -- What a round for the label `m` does.
  abbrev Settles : String → S → S → Type 0
  Settles m s s1 =
      (on m s1 ≡ (target == some m)) × ((l : String) → (m == l) ≡ false → on l s1 ≡ on l s)

  settled :
      (m l : String) (s s1 : S)
      → Settles m s s1
      → on l s1 ≡ (if m == l then target == some l else on l s)
  settled m l s s1 (here, there) = elim (==-cases m l) [
    | inl (t, e) ↦ rw t (subst (λ k. on k s1 ≡ (target == some k)) e here)
    | inr (t, e) ↦ rw t (there l t)
  ]

  Read-settled :
      (m : String) (ls : List String) (s s1 : S) → Settles m s s1 → Read (m ∷ ls) s → Read ls s1
  unfolding contains
  Read-settled m ls s s1 q r l h = elim (==-cases m l) [
    | inl (t, e) ↦ inr (subst (λ k. on k s1 ≡ (target == some k)) e q.0)
    | inr (t, e) ↦ elim (r l (rw (t, h) refl)) [
      | inl a ↦ inl (q.1 l t ∙ a)
      | inr a ↦ inr (q.1 l t ∙ a)
    ]
  ]

  Call-cases :
      (x : S × Result (Unit {0}))
      → ((s1 : S) × (x ≡ (s1, ok tt))) ⊎ ((s1 : S) × (e : Error) × (x ≡ (s1, err e)))
  Call-cases (s1, ok tt) = inl (s1, refl)
  Call-cases (s1, err e) = inr (s1, e, refl)

  self : (m : String) (ls : List String) → contains m (m ∷ ls) ≡ true
  unfolding contains
  self m ls = rw (==_refl m) refl

  -- A label that is read as it shall be, is so.
  kept :
      (m : String) (ls : List String) (s : S)
      → Read (m ∷ ls) s
      → contains m current ≡ (target == some m)
      → Settles m s s
  kept m ls s r c = (elim (r m (self m ls)) [ inl a ↦ a ∙ c | inr a ↦ a ], λ l t. refl)

  round :
      (m : String) (ls : List String) (s s' : S)
      → Read (m ∷ ls) s
      → sync_labels client false n target current (m ∷ ls) s ≡ (s', ok tt)
      → (s1 : S) × Settles m s s1 × (sync_labels client false n target current ls s1 ≡ (s', ok tt))
  unfolding sync_labels
  round m ls s s' r h = elim (Bool-cases (target == some m)) [
    | inl t ↦ elim (Bool-cases (contains m current)) [
      | inl c ↦ (s, kept m ls s r (c ∙ sym t), rw (t, c) at h)
      | inr c ↦ elim (Call-cases (client.add_label s n m)) [
        | inr (s1, e, q) ↦ absurd (failed s1 e (rw (t, c, q) at h))
        | inl (s1, q) ↦ (
          s1,
          (
            client.added s s1 n m m q ∙ rw (==_refl m, t) refl,
            λ l u. client.added s s1 n m l q ∙ rw u refl,
          ),
          rw (t, c, q) at h,
        )
      ]
    ]
    | inr t ↦ elim (Bool-cases (contains m current)) [
      | inr c ↦ (s, kept m ls s r (c ∙ sym t), rw (t, c) at h)
      | inl c ↦ elim (Call-cases (client.remove_label s n m)) [
        | inr (s1, e, q) ↦ absurd (failed s1 e (rw (t, c, q) at h))
        | inl (s1, q) ↦ (
          s1,
          (
            client.removed s s1 n m m q ∙ rw (==_refl m, t) refl,
            λ l u. client.removed s s1 n m l q ∙ rw u refl,
          ),
          rw (t, c, q) at h,
        )
      ]
    ]
  ]
    where
      failed : (s1 : S) (e : Error) → ◌≡◌ {A = S × Result (Unit {0})} (s1, err e) (s', ok tt) → ⊥
      failed s1 e q = err_ok (ap (λ x. x.1) q)
        where
          err_ok : ◌≡◌ {A = Result (Unit {0})} (err e) (ok tt) → ⊥
          err_ok p = cc

  sync_labels-on :
      (ls : List String) (s s' : S)
      → Read ls s
      → sync_labels client false n target current ls s ≡ (s', ok tt)
      → (l : String) → on l s' ≡ (if contains l ls then target == some l else on l s)
  unfolding sync_labels contains
  sync_labels-on [] s s' r h l = sym (ap (λ x. on l x.0) h)
  sync_labels-on (m ∷ ls) s s' r h l =
      let (s1, q, rest) = round m ls s s' r h in
      let after = sync_labels-on ls s1 s' (Read-settled m ls s s1 q r) rest l in
      ground (arith, after, settled m l s s1 q)

  -- With every label as it shall be, the loop leaves the service as it is.
  sync_labels-idle :
      (ls : List String) (s : S)
      → ((l : String) → contains l ls ≡ true → contains l current ≡ (target == some l))
      → sync_labels client false n target current ls s ≡ (s, ok tt)
  unfolding sync_labels contains
  sync_labels-idle [] s r = refl
  sync_labels-idle (m ∷ ls) s r =
      let here = r m (self m ls) in
      let rest = sync_labels-idle ls s (λ l h. r l (rw h (ground arith))) in
      ground (arith, here, rest)

module _ {S : Type 0} (client : LabelClient S) (c : GitHubQueueConfig) (n : ℕ)
    (phase : WorkItemPhase) (s s' : S) where
  -- When the labels of an issue were synchronized with a phase and no call raised, the issue has
  -- exactly the lifecycle label of the phase, if the phase has one, and its other labels as before.
  pub apply_phase_labels-on :
      apply_phase_labels client false n c phase s ≡ (s', ok tt)
      → (l : String)
      → contains l (client.get_labels s' n) ≡ (
          if contains l (lifecycle_labels c)
          then phase_label c phase == some l
          else contains l (client.get_labels s n))
  unfolding apply_phase_labels
  apply_phase_labels-on h l =
      sync_labels-on client n (phase_label c phase) (client.get_labels s n) (lifecycle_labels c) s
        s' (λ k _. inl refl) h l

  -- Synchronizing again with the same phase returns, and leaves the service as it is.
  pub apply_phase_labels-again :
      apply_phase_labels client false n c phase s ≡ (s', ok tt)
      → apply_phase_labels client false n c phase s' ≡ (s', ok tt)
  unfolding apply_phase_labels
  apply_phase_labels-again h =
      sync_labels-idle client n (phase_label c phase) (client.get_labels s' n) (lifecycle_labels c)
        s' (λ l m. apply_phase_labels-on h l ∙ rw m refl)
