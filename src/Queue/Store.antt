-- ===== src/Queue/Store.antt =====
-- src/ai_pr_orchestrator/v3/queue.py: `GitHubIssueQueue`, loading and saving the state of an issue.
-- The GitHub service is a parameter, with what each of its calls returns; so are the regular
-- expressions and the JSON of a comment's body, and how Python compares two states. Events that are
-- logged are left out.
use aipro.Prelude.{
  ℕ, String, Bool, true, false, Option, none, some, List, [], ◌∷◌, map, filter, find, any, not,
  ◌&&◌, ◌==◌, string_eq, nat_eq, is_some, if◌then◌else◌, Result, ok, err, domain_error,
  state_conflict, claim_conflict, malformed_state, ◌>>◌, ◌>>=◌, raise_if,
}
use aipro.Config.{GitHubQueueConfig}
use aipro.Domain.{GitHubIssueRef}
use aipro.Domain.State.{WorkflowState}
use aipro.Queue.Arbitration.{Comment, settle_after_create}
use aipro.Queue.Compaction.{compacted}
use aipro.Queue.Labels.{LabelClient}

pub record StoredComment (B : Type 0) : Type 0 where
  pub id : ℕ
  pub user : String
  pub body : B

-- What `_extract_block` and `WorkflowState.from_dict` make of a body: no block, a block that is not
-- JSON, one that is no state, or a state.
pub data Decoded : Type 0 where
  no_block not_json not_state : Decoded
  holds : WorkflowState → Decoded

-- The calls of `GitHubClientProtocol` on comments.
pub record CommentClient (S B : Type 0) : Type 0 where
  pub get_comments : S → ℕ → List (StoredComment B)
  pub get_comment : S → ℕ → Option (StoredComment B)
  pub post_comment : S → ℕ → B → S × Result (StoredComment B)
  pub edit_comment : S → ℕ → B → S × Result (StoredComment B)
  pub delete_comment : S → ℕ → S × Result (Unit {0})

-- The body of a comment: reading, `_has_any_marker`, `_embed_block` and `_replace_block`.
pub record Codec (B : Type 0) : Type 0 where
  pub decode : B → Decoded
  pub has_any_marker : B → Bool
  pub embed_block : WorkflowState → B
  pub replace_block : B → WorkflowState → B

-- `matched` is the match of a work item's id with its number.
pub record GitHubIssueQueue (S B : Type 0) : Type 0 where
  pub labels : LabelClient S
  pub client : CommentClient S B
  pub codec : Codec B
  pub cfg : GitHubQueueConfig
  pub owner : String
  pub repo : String
  pub state_actor : String
  pub host_id : String
  pub dry_run : Bool
  pub matched : String → Option (String × String × ℕ)
  pub payload_chars : WorkflowState → ℕ
  pub same_state : WorkflowState → WorkflowState → Bool

-- A call, and what follows unless it raised.
abbrev pub chain : {S A C : Type 0} → S × Result A → (A → S → S × Result C) → S × Result C
chain (s, ok a) next = next a s
chain (s, err e) next = (s, err e)

abbrev pub holds_block : Decoded → Bool
holds_block no_block = false
holds_block _ = true

abbrev pub loaded : Decoded → Result (Option WorkflowState)
loaded no_block = ok none
loaded not_json = err malformed_state
loaded not_state = err domain_error
loaded (holds x) = ok (some x)

module _ {S B : Type 0} (q : GitHubIssueQueue S B) where
  abbrev pub bound_ref : Option (String × String × ℕ) → Result GitHubIssueRef
  bound_ref none = err domain_error
  bound_ref (some (owner, repo, number)) = do
    raise_if (not (owner == q.owner && repo == q.repo)) domain_error
    ok (record { owner = owner; repo = repo; number = number })

  unfoldable pub issue_ref : String → Result GitHubIssueRef
  issue_ref id = bound_ref (q.matched id)

  abbrev pub comments_of_actor : S → ℕ → List (StoredComment B)
  comments_of_actor s n = filter (λ c. c.user == q.state_actor) (q.client.get_comments s n)

  unfoldable pub state_comment : S → ℕ → Option (StoredComment B)
  state_comment s n = find (λ c. holds_block (q.codec.decode c.body)) (comments_of_actor s n)

  abbrev pub loaded_from : Option (StoredComment B) → Result (Option WorkflowState)
  loaded_from none = ok none
  loaded_from (some c) = loaded (q.codec.decode c.body)

  unfoldable pub load_state : S → String → Result (Option WorkflowState)
  load_state s id = do issue ← issue_ref id; loaded_from (state_comment s issue.number)

  unfoldable pub delete_each : List ℕ → S → S × Result (Unit {0})
  delete_each [] s = (s, ok tt)
  delete_each (d ∷ ds) s = chain (q.client.delete_comment s d) (λ x t. delete_each ds t)

  -- What the arbitration sees of a comment.
  abbrev pub seen : StoredComment B → Comment
  seen c = record { id = c.id; user = c.user; has_block = holds_block (q.codec.decode c.body) }

  unfoldable pub settle : S → ℕ → ℕ → S × Result (Unit {0})
  settle s n created =
      let (duplicates, verdict) =
        settle_after_create q.state_actor (map (seen) (q.client.get_comments s n)) created in
      chain (delete_each duplicates s) (λ x t. (t, verdict))

  unfoldable pub save_create_only :
      S → ℕ → Option (StoredComment B) → WorkflowState → S × Result (Unit {0})
  save_create_only s n comment block =
      if any (λ c. q.codec.has_any_marker c.body) (comments_of_actor s n)
      then (s, err claim_conflict)
      else if is_some comment
      then (s, err claim_conflict)
      else if q.dry_run
      then (s, ok tt)
      else chain (q.client.post_comment s n (q.codec.embed_block block))
          (λ created t. settle t n created.id)

  -- `verify_updated != state.updated_at`
  abbrev pub same_version : ℕ → Decoded → Result (Unit {0})
  same_version version no_block = err state_conflict
  same_version version not_json = err malformed_state
  same_version version not_state = err state_conflict
  same_version version (holds x) = raise_if (not (x.updated_at == version)) state_conflict

  abbrev pub verified : ℕ → Option (StoredComment B) → Result (Unit {0})
  verified version none = err state_conflict
  verified version (some c) =
      if not (q.codec.has_any_marker c.body)
      then err state_conflict
      else same_version version (q.codec.decode c.body)

  -- `self._client.get_comment(edited.id) if edited.id else None`
  abbrev pub reread : S → ℕ → Option (StoredComment B)
  reread s id = if id == 0 then none else q.client.get_comment s id

  -- The update of a comment that holds a state.
  abbrev pub replace_state :
      S → StoredComment B → ℕ → WorkflowState → ℕ → Decoded → S × Result (Unit {0})
  replace_state s c version block expected (holds old) =
      if not (old.updated_at == expected)
      then (s, err state_conflict)
      else if q.dry_run
      then (s, ok tt)
      else chain (q.client.edit_comment s c.id (q.codec.replace_block c.body block))
          (λ edited t. (t, verified version (reread t edited.id)))
  replace_state s c version block expected _ = (s, err malformed_state)

  unfoldable pub save_update :
      S → Option (StoredComment B) → ℕ → WorkflowState → ℕ → S × Result (Unit {0})
  save_update s none version block expected =
      if q.dry_run then (s, ok tt) else (s, err state_conflict)
  save_update s (some c) version block expected =
      replace_state s c version block expected (q.codec.decode c.body)

  abbrev pub save_block : S → GitHubIssueRef → ℕ → WorkflowState → Option ℕ → S × Result (Unit {0})
  save_block s issue version block none =
      save_create_only s issue.number (state_comment s issue.number) block
  save_block s issue version block (some expected) =
      save_update s (state_comment s issue.number) version block expected

  -- `save_state`
  unfoldable pub save_state : S → WorkflowState → Option ℕ → S × Result (Unit {0})
  save_state s state expected =
      chain (s, issue_ref state.work_item_id)
        (λ issue t.
          chain (t, compacted q.cfg q.payload_chars state)
            (λ block u. save_block u issue state.updated_at block expected))
