-- ===== src/Scheduler/Turns.antt =====
-- What a step of the scheduler starts.
use aipro.Prelude.{
  ℕ, String, true, Option, none, some, List, [], ◌∷◌, string_eq, if◌then◌else◌, Result, ok, ◌≡◌,
  ◌⊎◌, sym, ap, ◌∙◌, subst, inl, inr, Bool-cases, ok_inj,
}
use aipro.Prelude.Dict.{lookup}
use aipro.Domain.{GitHubIssueRef, is_terminal}
use aipro.Domain.Identity.{slug}
use aipro.Domain.State.{WorkflowState}
use aipro.Queue.Store.{GitHubIssueQueue, chain, load_state}
use aipro.Queue.Lifecycle.{repair_labels, is_claim_stale}
use aipro.Queue.Listing.{list_ready, list_active, own_host}
use aipro.Queue.Versions.{chain-ok, read-ok, pair_error, returned}
use aipro.Foreman.Outcome.{WorkItemOutcome}
use aipro.Scheduler.{
  PolicyLoop, waits_for_ci, process_each, process_ready, renew_stale, resume_loaded, resume,
  step_on, step,
}

-- Every outcome but the last waits for CI.
abbrev pub OneTurn : List WorkItemOutcome → Type 0
OneTurn [] = Unit
OneTurn (o ∷ []) = Unit
OneTurn (o ∷ p ∷ os) = (waits_for_ci o ≡ true) × OneTurn (p ∷ os)

OneTurn-cons :
    (o : WorkItemOutcome) (os : List WorkItemOutcome)
    → waits_for_ci o ≡ true
    → OneTurn os
    → OneTurn (o ∷ os)
OneTurn-cons o [] w t = tt
OneTurn-cons o (p ∷ os) w t = (w, t)

cons_parts : {A : Type 0} {a b : A} {xs ys : List A} → a ∷ xs ≡ b ∷ ys → (a ≡ b) × (xs ≡ ys)
cons_parts e = (cc, cc)

nothing : {A : Type 0} {a : A} {ys : List A} → [] ≡ a ∷ ys → ⊥
nothing e = cc

same_return : {S A : Type 0} {s t : S} {a b : A} → s ≡ t → a ≡ b → returned s a ≡ returned t b
same_return {s} {b} e f = ap (λ x. returned s x) f ∙ ap (λ x. returned x b) e

module _ {S B : Type 0} (q : GitHubIssueQueue S B) (with_label : S → String → List ℕ)
    (loop : PolicyLoop S) (fresh_run : S → String) (now : S → ℕ) where
  abbrev each : List GitHubIssueRef → S → S × Result (List WorkItemOutcome)
  each = process_each q with_label loop fresh_run now

  process_each-OneTurn :
      (is : List GitHubIssueRef) (s t : S) (os : List WorkItemOutcome)
      → process_each q with_label loop fresh_run now is s ≡ (t, ok os)
      → OneTurn os
  unfolding process_each
  process_each-OneTurn [] s t os h = subst OneTurn (ok_inj (ap (λ p. p.1) h)) tt
  process_each-OneTurn (i ∷ is) s t os h =
      let (state, loaded, h1) = read-ok s (load_state q s (slug i)) _ h in
      let (u, o, ran, h2) = chain-ok (loop.run_work s _ i) _ h1 in
      elim (Bool-cases (waits_for_ci o)) [
        | inl w ↦
            let (v, more, rest, done) = chain-ok (each is u) _ (rw w at h2) in
            subst OneTurn (ok_inj (ap (λ p. p.1) done))
              (OneTurn-cons o more w (process_each-OneTurn is u v more rest))
        | inr w ↦ subst OneTurn (ok_inj (ap (λ p. p.1) (rw w at h2))) tt
      ]

  -- A step that returns either found no active issue, and then every outcome but the last waits for
  -- CI, or found exactly one, which it resumed.
  pub step-OneTurn :
      (s t : S) (os : List WorkItemOutcome)
      → step q with_label loop fresh_run now s ≡ (t, ok os)
      → ((list_active q with_label s ≡ ok []) × OneTurn os)
        ⊎ ((i : GitHubIssueRef) × (list_active q with_label s ≡ ok (i ∷ []))
            × (resume q with_label loop fresh_run now s i ≡ (t, ok os)))
  unfolding step process_ready
  step-OneTurn s t os h =
      let (active, listed, rest) = read-ok s (list_active q with_label s) _ h in
      by_active active listed rest
    where
      by_active :
          (active : List GitHubIssueRef)
          → list_active q with_label s ≡ ok active
          → step_on q with_label loop fresh_run now active s ≡ (t, ok os)
          → ((list_active q with_label s ≡ ok []) × OneTurn os)
            ⊎ ((i : GitHubIssueRef) × (list_active q with_label s ≡ ok (i ∷ []))
                × (resume q with_label loop fresh_run now s i ≡ (t, ok os)))
      by_active [] listed g =
          let (ready, found, rest) = read-ok s (list_ready q with_label s) _ g in
          inl (listed, process_each-OneTurn ready s t os rest)
      by_active (i ∷ []) listed g = inr (i, listed, g)
      by_active (i ∷ j ∷ is) listed g = absurd (pair_error g)

  -- The last part of a resumption, on the state that is current.
  resumed_by :
      (u t : S) (issue : GitHubIssueRef) (y : WorkflowState) (o : WorkItemOutcome)
      (os : List WorkItemOutcome)
      → (if own_host q (lookup "host_id" y.extras)
          then chain (loop.resume_work u y.run_id issue y) (λ p v. (v, ok (p ∷ [])))
          else (u, ok []))
        ≡ (t, ok (o ∷ os))
      → (os ≡ [])
        × (own_host q (lookup "host_id" y.extras) ≡ true)
        × (loop.resume_work u y.run_id issue y ≡ (t, ok o))
  resumed_by u t issue y o os g = elim (Bool-cases (own_host q (lookup "host_id" y.extras))) [
    | inl own ↦
        let (v, p, ran, done) = chain-ok (loop.resume_work u y.run_id issue y) _ (rw own at g) in
        let (same, empty) = cons_parts (ok_inj (ap (λ r. r.1) done)) in
        (sym empty, own, ran ∙ same_return (ap (λ r. r.0) done) same)
    | inr other ↦ absurd (nothing (ok_inj (ap (λ p. p.1) (rw other at g))))
  ]

  -- A resumption that runs the policy loop runs it once, on a state that holds the claim of this host.
  pub resume-own_host :
      (s t : S) (issue : GitHubIssueRef) (o : WorkItemOutcome) (os : List WorkItemOutcome)
      → resume q with_label loop fresh_run now s issue ≡ (t, ok (o ∷ os))
      → (os ≡ [])
        × ((u : S) × (x : WorkflowState) × (own_host q (lookup "host_id" x.extras) ≡ true)
            × (loop.resume_work u x.run_id issue x ≡ (t, ok o)))
  unfolding resume
  resume-own_host s t issue o os h =
      let (state, loaded, rest) = read-ok s (load_state q s (slug issue)) _ h in by_state state rest
    where
      by_state :
          (state : Option WorkflowState)
          → resume_loaded q with_label loop fresh_run now issue state s ≡ (t, ok (o ∷ os))
          → (os ≡ [])
            × ((u : S) × (x : WorkflowState) × (own_host q (lookup "host_id" x.extras) ≡ true)
                × (loop.resume_work u x.run_id issue x ≡ (t, ok o)))
      by_state none g = absurd (pair_error g)
      by_state (some x) g = elim (Bool-cases (is_terminal x.phase)) [
        | inl e ↦
            let (u, z, fixed, done) = chain-ok (repair_labels q s issue (some x)) _ (rw e at g) in
            absurd (nothing (ok_inj (ap (λ p. p.1) done)))
        | inr e ↦
            let (stale, asked, g1) = read-ok s (is_claim_stale q x (now s)) _ (rw e at g) in
            let (u, y, taken, g2) =
              chain-ok (renew_stale q with_label loop fresh_run now issue x stale s) _ g1 in
            let (empty, own, ran) = resumed_by u t issue y o os g2 in (empty, (u, y, own, ran))
      ]
