-- ===== src/Queue/Compaction.antt =====
-- src/ai_pr_orchestrator/v3/queue.py: `_compacted`, which fits the state block into its bound by
-- dropping findings that a review thread still holds. A block is represented by the state that it
-- serializes; the number of characters that `json.dumps` gives for it is a parameter.
use aipro.Prelude.{
  ℕ, ◌+◌, ◌*◌, Bool, String, List, [], ◌∷◌, ◌++◌, filter, any, not, is_some, leb, if◌then◌else◌,
  Result, ok, err, domain_error, block_too_large, ◌>>◌, ◌>>=◌, raise_if,
}
use Prim.Native.String.{count as chars}
use aipro.Prelude.Dict.{has}
use aipro.Config.{GitHubQueueConfig}
use aipro.Domain.Finding.{ReviewerFinding}
use aipro.Domain.State.{WorkflowState}

-- The fields of a state, which its extras may not override.
abbrev pub reserved : List String
reserved =
    "work_item_id" ∷ "run_id" ∷ "phase" ∷ "round_id" ∷ "updated_at" ∷ "terminal_reason" ∷ "findings"
    ∷ "dispositions" ∷ "archived" ∷ []

-- `WorkflowState.to_dict`, by what it rejects
abbrev pub block_of : WorkflowState → Result WorkflowState
block_of s = do raise_if (any (λ k. has k s.extras) reserved) domain_error; ok s

abbrev pub is_threaded : ReviewerFinding → Bool
is_threaded f = is_some f.thread_id

abbrev pub threaded : WorkflowState → List ReviewerFinding
threaded s = filter is_threaded s.findings

abbrev pub unthreaded : WorkflowState → List ReviewerFinding
unthreaded s = filter (λ f. not (is_threaded f)) s.findings

abbrev pub with_findings : WorkflowState → List ReviewerFinding → WorkflowState
with_findings s fs = record s { findings = fs }

module _ (cfg : GitHubQueueConfig) (payload_chars : WorkflowState → ℕ) where
  -- `len(self._embed_block(block))`: the marker stands in the opening and in the closing comment.
  unfoldable pub embed_chars : WorkflowState → ℕ
  embed_chars s = payload_chars s + 2 * chars cfg.state_comment_marker + 30

  abbrev pub fits : WorkflowState → Bool
  fits s = leb (embed_chars s) cfg.max_state_block_chars

  -- The `while` loop, on the threaded findings that are left.
  unfoldable pub drop_threaded : WorkflowState → List ReviewerFinding → Result WorkflowState
  drop_threaded s [] = err block_too_large
  drop_threaded s (f ∷ left) =
      let trimmed = with_findings s (unthreaded s ++ left) in
      let rest = drop_threaded s left in if fits trimmed then ok trimmed else rest

  unfoldable pub compacted : WorkflowState → Result WorkflowState
  compacted s = do block ← block_of s; if fits block then ok block else drop_threaded s (threaded s)
