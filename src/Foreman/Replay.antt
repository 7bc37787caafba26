-- ===== src/Foreman/Replay.antt =====
-- src/ai_pr_orchestrator/v3/foreman.py: `_merge_dispositions`, and the report of a wave as JSON.
use aipro.Prelude.{
  Bool, true, none, some, List, [], ◌∷◌, ◌++◌, find, filter, map, ◌≡◌, refl, sym, ap, ◌∙◌, inl, inr,
  ok, ok_inj, >>=-eq-ok, Bool-cases, Option-cases, string_eq, option_eq, ==_refl, All, arith,
}
use aipro.Domain.Finding.{FindingDisposition}
use aipro.Domain.State.{WorkflowState}
use aipro.Findings.{action_name}
use aipro.Foreman.Extras.{get_field}
use aipro.Foreman.Rounds.{RoundReport, report_to_dict, report_from_dict, holds_item, text_items}
use aipro.Foreman.Proposals.{same_disposition, same_key, merged_with, merge_dispositions}

-- The decision is the one that the history has under its key.
Settled : List FindingDisposition → FindingDisposition → Type 0
Settled history d =
    (p : FindingDisposition) × (find (λ x. same_key x d) history ≡ some p)
    × (same_disposition p d ≡ true)

same_key_refl : (d : FindingDisposition) → same_key d d ≡ true
same_key_refl d =
    rw (==_refl d.run_id, ==_refl d.round_id, ==_refl d.decided_by, ==_refl d.finding_id) refl

same_disposition_refl : (d : FindingDisposition) → same_disposition d d ≡ true
same_disposition_refl d =
    rw
      (
        ==_refl d.finding_id,
        ==_refl (action_name d.action),
        ==_refl d.rationale,
        ==_refl d.decided_by,
        ==_refl d.thread_id,
        ==_refl d.reply_body,
        ==_refl d.run_id,
        ==_refl d.round_id,
        ==_refl d.response_to_round_id,
      )
      refl

find-append_some :
    (p : FindingDisposition → Bool) (a : FindingDisposition) (xs ys : List FindingDisposition)
    → find p xs ≡ some a
    → find p (xs ++ ys) ≡ some a
unfolding find
find-append_some p a [] ys h = cc
find-append_some p a (x ∷ xs) ys h = ground (arith, find-append_some p a xs ys)

find-append_none :
    (p : FindingDisposition → Bool) (xs : List FindingDisposition) (y : FindingDisposition)
    → find p xs ≡ none
    → p y ≡ true
    → find p (xs ++ y ∷ []) ≡ some y
unfolding find
find-append_none p [] y h e = rw e refl
find-append_none p (x ∷ xs) y h e = ground (arith, find-append_none p xs y)

Settled-append :
    (xs ys : List FindingDisposition) (d : FindingDisposition) → Settled xs d → Settled (xs ++ ys) d
unfolding Settled
Settled-append xs ys d (p, found, same) = (p, find-append_some _ p xs ys found, same)

-- One decision: the history grows by it at most, and it is settled.
merged_with-Settled :
    (merged : List FindingDisposition) (d : FindingDisposition) {more : List FindingDisposition}
    → merged_with merged d (find (λ x. same_key x d) merged) ≡ ok more
    → ((ext : List FindingDisposition) × (more ≡ merged ++ ext)) × Settled more d
unfolding Settled
merged_with-Settled merged d h = elim (Option-cases (find (λ x. same_key x d) merged)) [
  | inl absent ↦
      let e = ok_inj (rw absent at h) in
      (
        (d ∷ [], sym e),
        rw (sym e)
            (d, find-append_none _ merged d absent (same_key_refl d), same_disposition_refl d),
      )
  | inr (p, found) ↦ elim (Bool-cases (same_disposition p d)) [
    | inl same ↦
        let e = ok_inj (rw same at (rw found at h)) in
        (([], sym e ∙ sym (mathlib.Core.List.append-nil _)), rw (sym e) (p, found, same))
    | inr other ↦ let bad = rw other at (rw found at h) in cc bad
  ]
]

merge_dispositions-All :
    (merged ds : List FindingDisposition) {m : List FindingDisposition}
    → merge_dispositions merged ds ≡ ok m
    → ((ext : List FindingDisposition) × (m ≡ merged ++ ext)) × All (Settled m) ds
unfolding merge_dispositions
merge_dispositions-All merged [] h =
    (([], sym (ok_inj h) ∙ sym (mathlib.Core.List.append-nil _)), tt)
merge_dispositions-All merged (d ∷ ds) h =
    let (more, first, rest) =
      >>=-eq-ok (merged_with merged d (find (λ x. same_key x d) merged)) _ h in
    joined more (merged_with-Settled merged d first) (merge_dispositions-All more ds rest)
  where
    joined :
        {m : List FindingDisposition} (more : List FindingDisposition)
        → ((ext : List FindingDisposition) × (more ≡ merged ++ ext)) × Settled more d
        → ((ext : List FindingDisposition) × (m ≡ more ++ ext)) × All (Settled m) ds
        → ((ext : List FindingDisposition) × (m ≡ merged ++ ext)) × All (Settled m) (d ∷ ds)
    joined more ((e1, p), settled) ((e2, q), all) = (
      (e1 ++ e2, q ∙ ap (λ z. z ++ e2) p ∙ mathlib.Core.List.append_assoc merged e1 e2),
      (rw q (Settled-append more e2 d settled), all),
    )

merge-Settled :
    (history ds : List FindingDisposition)
    → All (Settled history) ds
    → merge_dispositions history ds ≡ ok history
unfolding merge_dispositions Settled
merge-Settled history [] all = refl
merge-Settled history (d ∷ ds) ((p, found, same), all) =
    rw found (rw same (merge-Settled history ds all))

-- A merge of decisions into a history that returns only appended to it, and the same merge into the
-- result returns the result: an exact replay of a round is no further write.
pub merge_dispositions-replay :
    (history ds : List FindingDisposition) {m : List FindingDisposition}
    → merge_dispositions history ds ≡ ok m
    → ((more : List FindingDisposition) × (m ≡ history ++ more)) × (merge_dispositions m ds ≡ ok m)
merge_dispositions-replay history ds {m} h =
    let (extends, all) = merge_dispositions-All history ds h in (extends, merge-Settled m ds all)

-- The report that a finished wave leaves in the state is read back by a restarted run: the same
-- numbers and head, and as remaining the findings of the state whose ids it holds.
pub report_from_dict-to_dict :
    (state : WorkflowState) (r : RoundReport)
    → report_from_dict state (report_to_dict r)
      ≡ ok (record r {
        remaining =
            filter (λ g. holds_item g.id (text_items (map (λ h. h.id) r.remaining))) state.findings;
      })
unfolding report_from_dict report_to_dict get_field
report_from_dict-to_dict state r = refl
