-- ===== src/Queue/Listing.antt =====
-- src/ai_pr_orchestrator/v3/queue.py: the listings of issues by their labels and states, and the
-- states that a cleanup may act on.
use aipro.Prelude.{
  ℕ, String, Bool, true, false, Option, none, some, List, [], ◌∷◌, ◌++◌, map, contains, not, ◌||◌,
  ◌==◌, string_eq, nat_eq, leb, option_eq, if◌then◌else◌, Result, ok, state_conflict, ◌>>=◌,
  raise_if,
}
use aipro.Prelude.Dict.{lookup, has}
use aipro.Domain.{GitHubIssueRef, is_terminal, is_queued, Value, text}
use aipro.Domain.Identity.{slug}
use aipro.Domain.State.{WorkflowState}
use aipro.Config.{lifecycle_labels}
use aipro.Queue.Store.{GitHubIssueQueue, load_state}
use aipro.Queue.Lifecycle.{is_enabled, is_true}

-- `sorted(numbers)`
unfoldable pub insert_number : ℕ → List ℕ → List ℕ
insert_number n [] = n ∷ []
insert_number n (m ∷ ms) = let rest = insert_number n ms in if leb n m then n ∷ m ∷ ms else m ∷ rest

unfoldable pub sorted : List ℕ → List ℕ
sorted [] = []
sorted (n ∷ ns) = insert_number n (sorted ns)

-- `set(numbers)`, as a list in which each number stands once
unfoldable pub once : List ℕ → List ℕ
once [] = []
once (n ∷ ns) = let rest = once ns in if contains n rest then rest else n ∷ rest

-- `with_label` is `client.list_issues_by_label`.
module _ {S B : Type 0} (q : GitHubIssueQueue S B) (with_label : S → String → List ℕ) (s : S) where
  abbrev pub ref_of : ℕ → GitHubIssueRef
  ref_of n = record { owner = q.owner; repo = q.repo; number = n }

  unfoldable pub labelled : List String → List ℕ
  labelled [] = []
  labelled (l ∷ ls) = with_label s l ++ labelled ls

  unfoldable pub list_work_items : List GitHubIssueRef
  list_work_items = map (ref_of) (sorted (once (labelled (lifecycle_labels q.cfg))))

  -- `state is None or state.phase == "queued"`
  abbrev pub is_free_to_claim : Option WorkflowState → Bool
  is_free_to_claim none = true
  is_free_to_claim (some x) = is_queued x.phase

  abbrev pub ready_if :
      GitHubIssueRef → Option WorkflowState → List GitHubIssueRef → List GitHubIssueRef
  ready_if issue state rest = if is_free_to_claim state then issue ∷ rest else rest

  unfoldable pub ready_from : List ℕ → Result (List GitHubIssueRef)
  ready_from [] = ok []
  ready_from (n ∷ ns) =
      let rest = ready_from ns in
      let checked = load_state q s (slug (ref_of n)) >>= λ state.
      rest >>= λ more. ok (ready_if (ref_of n) state more) in
      if not (is_enabled q s (ref_of n)) then rest else checked

  unfoldable pub list_ready : Result (List GitHubIssueRef)
  list_ready = ready_from (sorted (with_label s q.cfg.enabled_label))

  -- `state is not None and state.phase not in {*TERMINAL_PHASES, "queued"}`
  abbrev pub is_under_way : Option WorkflowState → Bool
  is_under_way none = false
  is_under_way (some x) = not (is_terminal x.phase || is_queued x.phase)

  unfoldable pub under_way : List ℕ → Result (List ℕ)
  under_way [] = ok []
  under_way (n ∷ ns) = do
    state ← load_state q s (slug (ref_of n))
    more ← under_way ns
    ok (if is_under_way state then n ∷ more else more)

  unfoldable pub list_active : Result (List GitHubIssueRef)
  list_active = do
    more ← under_way (with_label s q.cfg.enabled_label)
    ok (
        map (ref_of) (
          sorted
            (once (with_label s q.cfg.active_label ++ (with_label s q.cfg.review_label ++ more)))))

module _ {S B : Type 0} (q : GitHubIssueQueue S B) where
  abbrev pub own_host : Option Value → Bool
  own_host (some (text h)) = h == q.host_id
  own_host _ = false

  -- `_can_cleanup`
  unfoldable pub can_cleanup : WorkflowState → Bool
  can_cleanup x =
      if not (is_terminal x.phase)
      then false
      else if not (own_host (lookup "host_id" x.extras))
      then false
      else not (has "coder_turn" x.extras || has "review_waves" x.extras)
        || is_true (lookup "lanes_stopped" x.extras)

  -- `load_state(...) != state`
  abbrev pub changed : WorkflowState → Option WorkflowState → Bool
  changed x none = true
  changed x (some y) = not (q.same_state y x)

  unfoldable pub verify_cleanup_state : S → WorkflowState → Result (Unit {0})
  verify_cleanup_state s x = do
    current ← load_state q s x.work_item_id
    raise_if (changed x current) state_conflict
