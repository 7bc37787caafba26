-- ===== src/Queue/Attribution.antt =====
-- The claim that is written into `extras` is the claim that is read back.
use aipro.Prelude.{
  String, Option, none, some, ◌≡◌, refl, true, false, arith, ok, string_eq, contains, any, ◌∙◌,
}
use aipro.Prelude.Dict.{
  Dict, lookup, Unique, or_else, lookup-without, lookup-update, lookup-put_opt, put_opt-Unique,
}
use aipro.Domain.{Value, stamp}
use aipro.Domain.State.{WorkflowState}
use aipro.Queue.Claim.{
  Claim, phase_name, claim_attribution_keys, to_dict, from_dict, claim_from_state, reattributed,
}

pub to_dict-Unique : (c : Claim) → Unique (to_dict c)
unfolding to_dict lookup
to_dict-Unique c = put_opt-Unique _ _ c.heartbeat_at _ (
    put_opt-Unique _ _ c.pr_number _
      (put_opt-Unique _ _ c.worktree _ (put_opt-Unique _ _ c.branch _ (refl, (refl, (refl, tt))))))

-- The end of the lease in the keys of a claim.
pub lookup-to_dict :
    (c : Claim) → lookup "lease_expires_at" (to_dict c) ≡ some (stamp c.lease_expires_at)
unfolding to_dict lookup
lookup-to_dict c = simp lookup-put_opt refl

-- What each attribution key holds after a claim was merged in.
module _ (e : Dict Value) (c : Claim) where
  lookup-reattributed :
      (k : String)
      → contains k claim_attribution_keys ≡ true
      → lookup k (reattributed e c) ≡ lookup k (to_dict c)
  unfolding reattributed
  lookup-reattributed k h =
      lookup-update k _ (to_dict c) (to_dict-Unique c)
      ∙ rw (lookup-without claim_attribution_keys k e, h) (or_else_none (lookup k (to_dict c)))
    where
      or_else_none : (o : Option Value) → or_else o none ≡ o
      or_else_none none = refl
      or_else_none (some v) = refl

  -- Merging a claim into the extras leaves every key outside the claim's attribution as it was.
  lookup-reattributed_other :
      (k : String)
      → contains k claim_attribution_keys ≡ false
      → lookup k (reattributed e c) ≡ lookup k e
  unfolding reattributed to_dict contains lookup
  lookup-reattributed_other k h =
      lookup-update k _ (to_dict c) (to_dict-Unique c)
      ∙ rw (lookup-without claim_attribution_keys k e, h) (simp lookup-put_opt (ground arith))

-- Whatever the extras held before, the claim that is merged into them is read back, under the run
-- and the phase of the state; no attribution of an earlier owner is seen.
pub claim_from_state-reattributed :
    (e : Dict Value) (c : Claim) (s : WorkflowState)
    → s.extras ≡ reattributed e c
    → claim_from_state s ≡ ok (record c { run_id = s.run_id; phase = phase_name s.phase })
unfolding claim_from_state from_dict contains any
claim_from_state-reattributed e c s h =
    rw h
      (simp (lookup-reattributed e c) (unfold to_dict lookup in simp lookup-put_opt (ground arith)))
