-- ===== src/Queue/LifecycleExamples.antt =====
-- Witnesses for the properties of the issue queue, on a service of one issue with one comment.
use aipro.Prelude.{
  String, Bool, true, false, Option, none, some, List, [], ◌∷◌, filter, not, ◌==◌, string_eq,
  nat_eq, contains, find, any, ◌≡◌, ◌⊎◌, refl, sym, ap, ◌∙◌, ok,
}
use aipro.Prelude.Dict.{lookup, update, insert, put_opt}
use aipro.Config.{default_queue_config}
use aipro.Domain.{
  GitHubIssueRef, queued, claiming, coding, done, is_terminal, is_queued, stamp, text,
}
use aipro.Domain.Identity.{slug, decimal}
use aipro.Domain.State.{WorkflowState}
use aipro.Queue.Examples.{contains-filter, contains-cons}
use aipro.Queue.Claim.{Claim, claim_from_state, to_dict, from_dict}
use aipro.Queue.Compaction.{compacted, embed_chars}
use aipro.Queue.Labels.{LabelClient, apply_phase_labels, sync_labels, phase_label}
use aipro.Queue.Store.{
  StoredComment, Decoded, no_block, holds, CommentClient, Codec, GitHubIssueQueue, issue_ref,
  state_comment, load_state, save_state, save_create_only, save_update, settle, delete_each,
}
use aipro.Queue.Lifecycle.{claim, heartbeat, reclaim_expired, save_claim}
use aipro.Queue.Versions.{Replaced, save_state-Replaced}
use aipro.Queue.Ownership.{reclaim_expired-heartbeat, claim-load_state}

-- The labels of the issue, and its comment: a state, or a remark without one.
pub record Service : Type 0 where
  pub names : List String
  pub kept : List (StoredComment (Option WorkflowState))

abbrev relabelled : Service → List String → Service
relabelled s ls = record s { names = ls }

abbrev label_calls : LabelClient Service
label_calls = record {
  get_labels = λ s n. s.names;
  add_label = λ s n m. (relabelled s (m ∷ s.names), ok tt);
  remove_label = λ s n m. (relabelled s (filter (λ k. not (m == k)) s.names), ok tt);
  added = λ s s' n m l h. sym (ap (λ x. contains l x.0.names) h) ∙ contains-cons m l s.names;
  removed = λ s s' n m l h. sym (ap (λ x. contains l x.0.names) h) ∙ contains-filter m l s.names;
}

abbrev comment_calls : CommentClient Service (Option WorkflowState)
comment_calls = record {
  get_comments = λ s n. s.kept;
  get_comment = λ s k. find (λ c. c.id == k) s.kept;
  post_comment = λ s n b.
      let c : StoredComment (Option WorkflowState) = record { id = 1; user = "bot"; body = b } in
      (record s { kept = c ∷ [] }, ok c);
  edit_comment = λ s k b.
      let c : StoredComment (Option WorkflowState) = record { id = k; user = "bot"; body = b } in
      (record s { kept = c ∷ [] }, ok c);
  delete_comment = λ s k. (record s { kept = [] }, ok tt);
}

abbrev decode_body : Option WorkflowState → Decoded
decode_body none = no_block
decode_body (some x) = holds x

abbrev is_state : Option WorkflowState → Bool
is_state none = false
is_state (some x) = true

abbrev body_codec : Codec (Option WorkflowState)
body_codec = record {
  decode = decode_body;
  has_any_marker = is_state;
  embed_block = λ x. some x;
  replace_block = λ b x. some x;
}

abbrev pub queue : GitHubIssueQueue Service (Option WorkflowState)
queue = record {
  labels = label_calls;
  client = comment_calls;
  codec = body_codec;
  cfg = default_queue_config;
  owner = "acme";
  repo = "app";
  state_actor = "bot";
  host_id = "host";
  dry_run = false;
  matched = λ id. some ("acme", "app", 7);
  payload_chars = λ x. 100;
  same_state = λ x y. x.updated_at == y.updated_at;
}

abbrev pub issue : GitHubIssueRef
issue = record { owner = "acme"; repo = "app"; number = 7 }

abbrev opted_in : Service
opted_in = record { names = "v3-work-enabled" ∷ "v3-work" ∷ []; kept = [] }

abbrev first_claim : Claim
first_claim = record {
  run_id = "r1";
  host_id = "host";
  claimed_at = 10;
  lease_expires_at = 900000010;
  phase = "claiming";
  branch = none;
  worktree = none;
  pr_number = none;
  heartbeat_at = none;
}

abbrev pub claimed : WorkflowState
claimed = record {
  work_item_id = "acme/app#7";
  run_id = "r1";
  phase = claiming;
  round_id = none;
  updated_at = 10;
  terminal_reason = none;
  findings = [];
  dispositions = [];
  archived = [];
  extras =
      ("host_id", text "host")
      ∷ ("claimed_at", stamp 10)
      ∷ ("lease_expires_at", stamp 900000010)
      ∷ [];
}

abbrev pub after_claim : Service
after_claim = record {
  names = "v3-work-active" ∷ "v3-work-enabled" ∷ [];
  kept = record { id = 1; user = "bot"; body = some claimed } ∷ [];
}

claim_made : claim queue opted_in issue "r1" none none none 10 ≡ (after_claim, ok claimed)
unfolding claim contains load_state issue_ref state_comment find filter save_claim save_state
    compacted any lookup to_dict put_opt embed_chars save_create_only settle delete_each decimal
    aipro.Domain.Identity.decimal_from slug aipro.Queue.Arbitration.block_comments
    aipro.Queue.Arbitration.earliest aipro.Queue.Arbitration.settle_after_create
    aipro.Queue.Arbitration.settle_among aipro.Queue.Arbitration.state_comments apply_phase_labels
    phase_label sync_labels
claim_made = refl

claim-load_state_example :
    (contains "v3-work-enabled" opted_in.names ≡ true)
    × ((load_state queue opted_in (slug issue) ≡ ok none)
        ⊎ ((old : WorkflowState) × (load_state queue opted_in (slug issue) ≡ ok (some old))
            × (is_queued old.phase ≡ true)
            × (claimed.findings ≡ old.findings)
            × (claimed.archived ≡ old.archived)))
    × (claimed.phase ≡ claiming)
    × (claimed.run_id ≡ "r1")
    × (claimed.updated_at ≡ 10)
claim-load_state_example =
    claim-load_state queue opted_in after_claim issue "r1" none none none 10 claimed claim_made

abbrev lease : Claim
lease = record first_claim { phase = "claiming" }

abbrev beaten : WorkflowState
beaten = record claimed {
  updated_at = 20;
  extras =
      ("host_id", text "host")
      ∷ ("claimed_at", stamp 10)
      ∷ ("lease_expires_at", stamp 900000020)
      ∷ ("heartbeat_at", stamp 20)
      ∷ [];
}

abbrev after_beat : Service
after_beat = record {
  names = "v3-work-active" ∷ "v3-work-enabled" ∷ [];
  kept = record { id = 1; user = "bot"; body = some beaten } ∷ [];
}

heartbeat_made : heartbeat queue after_claim claimed 20 ≡ (after_beat, ok beaten)
unfolding heartbeat claim_from_state from_dict any lookup update insert save_state issue_ref
    compacted embed_chars state_comment find filter save_update to_dict put_opt
heartbeat_made = refl

reclaim_expired-heartbeat_example : ¬ (
    reclaim_expired queue after_claim issue claimed "r2" none none none 20
    ≡ (after_beat, ok beaten))
reclaim_expired-heartbeat_example =
    reclaim_expired-heartbeat queue queue after_claim after_beat after_claim after_beat claimed
      beaten beaten issue "r2" none none none 20 heartbeat_made

-- The heartbeat's save, by itself.
save_made : save_state queue after_claim beaten (some 10) ≡ (after_beat, ok tt)
unfolding any lookup save_state issue_ref compacted embed_chars state_comment find filter
    save_update
save_made = refl

save_state-Replaced_example :
    (i : GitHubIssueRef) × (block : WorkflowState) × (c : StoredComment (Option WorkflowState))
    × (issue_ref queue beaten.work_item_id ≡ ok i)
    × (compacted queue.cfg queue.payload_chars beaten ≡ ok block)
    × (state_comment queue after_claim i.number ≡ some c)
    × Replaced queue 20 after_claim after_beat 10 block c
save_state-Replaced_example =
    save_state-Replaced queue after_claim after_beat beaten 10 refl save_made

abbrev pub finished : WorkflowState
finished = record claimed { phase = done; terminal_reason = some "merged" }
