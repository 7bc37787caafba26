-- ===== src/Foreman/Trust.antt =====
-- src/ai_pr_orchestrator/v3/foreman.py: the pull request that the gate is asked about.
use Prim.Native.String.{◌++◌ as join}
use aipro.Domain.Identity.{decimal}
use aipro.Prelude.{
  not-eq-false, ℕ, String, Bool, true, false, Option, none, some, ◌≡◌, refl, sym, ap, ◌∙◌, not,
  ◌&&◌, ◌==◌, string_eq, option_eq, contains, arith, List, [], ◌∷◌, ok, In, inl, inr,
}
use aipro.Domain.{GitHubIssueRef}
use aipro.Domain.State.{WorkflowState}
use aipro.Foreman.Act.{
  Returns, value, raised, answers, bind, bind_post, if_post, guard_post, raise_when_post, weaken,
}
use aipro.Foreman.Services.{ForemanPolicyLoop, PullRequest}
use aipro.Foreman.Publication.{
  Summaries, validate_pr_authority, validate_pr_identity, reconcile_pr, reconcile_found, summarized,
  ensure_pr, opened_pr, discover_open_pr, first_of_branch,
}

-- A pull request that the policy lets through.
pub record IsTrusted {S : Type 0} (f : ForemanPolicyLoop S) (branch : String) (pr : PullRequest)
    : Type 0 where
  pub of_branch : pr.head_ref ≡ branch
  pub is_open : pr.state ≡ "open"
  pub author : contains pr.author_association f.safety.allowed_pr_author_associations ≡ true
  pub no_fork : f.safety.disallow_forks ≡ true → pr.is_fork ≡ false

-- A pull request that a call of the client returned.
pub data Answered {S : Type 0} (f : ForemanPolicyLoop S) : PullRequest → Type 0 where
  got :
      {pr : PullRequest} (number : ℕ) (s s1 : S)
      → f.client.get_pr number s ≡ (s1, ok pr)
      → Answered f pr
  listed :
      {pr : PullRequest} (prs : List PullRequest) (s s1 : S)
      → f.client.list_open_prs s ≡ (s1, ok prs)
      → In pr prs
      → Answered f pr
  created :
      {pr : PullRequest} (title body head base : String) (s s1 : S)
      → f.client.create_pr title body head base s ≡ (s1, ok pr)
      → Answered f pr
  updated :
      {pr : PullRequest} (number : ℕ) (body : String) (s s1 : S)
      → f.client.update_pr_body number body s ≡ (s1, ok pr)
      → Answered f pr

module _ {S : Type 0} (f : ForemanPolicyLoop S) where
  no_fork_of : (a b : Bool) → (a && b) ≡ false → a ≡ true → b ≡ false
  no_fork_of a b h e = ground arith

  same_text : (a b : String) (c : Bool) → not (a == b && c) ≡ false → a ≡ b
  same_text a b c h = (string_eq.same_iff a b).0 (ground arith)

  validate_pr_identity-IsTrusted :
      (pr : PullRequest) (branch : String) (base : Option String) (s : S)
      → Returns (λ u. IsTrusted f branch pr) (validate_pr_identity f pr branch base s)
  unfolding validate_pr_identity validate_pr_authority
  validate_pr_identity-IsTrusted pr branch none s = raised
  validate_pr_identity-IsTrusted pr branch (some base) s = guard_post _ _ _ s (λ e.
      guard_post _ _ _ s (λ e1. guard_post _ _ _ s (λ e2.
        weaken
          (λ u e3. record {
            of_branch = same_text pr.head_ref branch _ e;
            is_open = (string_eq.same_iff pr.state "open").0 (not-eq-false _ e3);
            author = not-eq-false _ e2;
            no_fork = no_fork_of _ _ e1;
          })
          (raise_when_post _ _ s))))

  -- What of a listing a search found.
  abbrev FoundIn : List PullRequest → Option PullRequest → Type 0
  FoundIn prs o = (pr : PullRequest) → o ≡ some pr → In pr prs

  some_same : {x pr : PullRequest} → some x ≡ some pr → x ≡ pr
  some_same e = cc

  further :
      (branch : String) (x : PullRequest) (prs : List PullRequest)
      → ((s : S) → Returns (FoundIn prs) (first_of_branch f branch prs s))
      → (s : S) → Returns (FoundIn (x ∷ prs)) (first_of_branch f branch (x ∷ prs) s)
  unfolding first_of_branch
  further branch x prs ih s =
      if_post _ _ _ s
        (λ e. bind _ _ s (λ base s1.
          if_post _ _ _ s1 (λ e1. value (λ pr e2. inl (some_same e2)))
            (λ e1. weaken (λ o h pr e2. inr (h pr e2)) (ih s1))))
        (λ e. weaken (λ o h pr e2. inr (h pr e2)) (ih s))

  first_of_branch-In :
      (branch : String) (prs : List PullRequest) (s : S)
      → Returns (FoundIn prs) (first_of_branch f branch prs s)
  unfolding first_of_branch
  first_of_branch-In branch [] s = value (λ pr e. cc)
  first_of_branch-In branch (x ∷ prs) s =
      further branch x prs (λ s1. first_of_branch-In branch prs s1) s

  discover_open_pr-Answered :
      (branch : String) (s : S)
      → Returns
          (λ o. (pr : PullRequest) → o ≡ some pr → Answered f pr)
          (discover_open_pr f branch s)
  unfolding discover_open_pr
  discover_open_pr-Answered branch s =
      bind_post _ _ s (answers f.client.list_open_prs s) (λ prs s1 (s2, listing).
        weaken (λ o h pr e. listed prs s s2 listing (h pr e)) (first_of_branch-In branch prs s1))

  -- A pull request that GitHub answered with and the policy lets through.
  abbrev Found : String → PullRequest → Type 0
  Found branch pr = Answered f pr × IsTrusted f branch pr

  module _ (t : Summaries) (issue : GitHubIssueRef) (branch : String) where
    opened_pr-Answered :
        (state : WorkflowState) (base : String) (found : Option PullRequest) (s : S)
        → ((pr : PullRequest) → found ≡ some pr → Answered f pr)
        → Returns (Answered f) (opened_pr f t issue state branch base found s)
    opened_pr-Answered state base (some pr) s h = value (h pr refl)
    opened_pr-Answered state base none s h =
        let title = join "[aipro] issue #" (join (decimal issue.number) ": automated change") in
        let body = t.pr_body issue state in
        weaken (λ pr (s1, e). created title body branch base s s1 e)
          (answers (f.client.create_pr title body branch base) s)

    reconcile_found-Found :
        (state : WorkflowState) (number : Option ℕ) (s : S)
        → Returns (Found branch) (reconcile_found f t issue state branch number s)
    reconcile_found-Found state (some number) s =
        bind_post _ _ s (answers (f.client.get_pr number) s) (λ pr s1 (s2, e).
          bind_post _ _ s1 (validate_pr_identity-IsTrusted pr branch _ s1)
            (λ u s3 h. value (got number s s2 e, h)))
    reconcile_found-Found state none s = bind _ _ s (λ base s1.
        bind_post _ _ s1 (discover_open_pr-Answered branch s1) (λ found s2 k.
          bind_post _ _ s2 (opened_pr-Answered state base found s2 k) (λ pr s3 a.
            bind_post _ _ s3 (validate_pr_identity-IsTrusted pr branch _ s3)
              (λ u s4 h. bind _ _ s4 (λ x s5. value (a, h))))))

    summarized-Found :
        (state : WorkflowState) (pr : PullRequest) (body : Option String) (s : S)
        → Found branch pr
        → Returns
            (λ out. Found branch out × (out.head_sha ≡ pr.head_sha))
            (summarized f t issue state branch pr body s)
    summarized-Found state pr none s h = raised
    summarized-Found state pr (some body) s h =
        if_post _ _ _ s (λ e. value (h, refl))
          (λ e.
            bind_post _ _ s (answers (f.client.update_pr_body pr.number body) s) (λ out s1 (s2, a).
              bind _ _ s1 (λ fresh s3.
                bind_post _ _ s3 (validate_pr_identity-IsTrusted out branch _ s3) (λ u s4 trusted.
                  guard_post _ _ _ s4 (λ e1. value (
                    (updated pr.number body s s2 a, trusted),
                    (string_eq.same_iff out.head_sha pr.head_sha).0 (not-eq-false _ e1),
                  ))))))

    -- The pull request that the gate is to judge, if it is returned, stands at the reviewed head: it
    -- is the number and the head of a pull request that GitHub returned from a call of its client,
    -- and this one is of the run's branch, open, from a trusted author, and from no fork if forks
    -- are disallowed.
    pub ensure_pr-IsTrusted :
        (state : WorkflowState) (head_sha : Option String) (s : S)
        → Returns
            (λ ref.
              (head_sha ≡ some ref.head_sha)
              × ((pr : PullRequest) × Answered f pr
                  × IsTrusted f branch pr
                  × (ref.number ≡ pr.number)
                  × (ref.head_sha ≡ pr.head_sha)))
            (ensure_pr f t issue state branch head_sha s)
    unfolding ensure_pr reconcile_pr
    ensure_pr-IsTrusted state head_sha s =
        bind_post _ _ s (reconcile_found-Found state _ s) (λ pr s1 h. guard_post _ _ _ s1 (λ e.
          bind_post _ _ s1 (summarized-Found state pr _ s1 h) (λ out s2 q. value (
            sym ((option_eq.same_iff _ head_sha).0 (not-eq-false _ e)) ∙ ap some (sym q.1),
            (out, q.0.0, q.0.1, refl, refl),
          ))))
