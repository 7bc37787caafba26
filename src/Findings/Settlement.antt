-- ===== src/Findings/Settlement.antt =====
-- What a disposition does to the registry.
use aipro.Prelude.{
  String, Bool, true, false, List, [], ◌∷◌, ◌++◌, All, Bool-cases, ◌&&◌, Option, none, some, find,
  find-some, In, ◌≡◌, ◌==◌, string_eq, option_eq, refl, ap, arith, inl, inr, Option-cases, ok, err,
  domain_error, ==_refl, eq_iff, sym, ◌∙◌,
}
use aipro.Domain.{
  DispositionAction, fix, accept, reject_wont_fix, already_addressed, reply_deferred,
  escalate_human, rebut, FindingStatus, accepted, rejected, deferred,
}
use aipro.Domain.State.{or_old}
use aipro.Domain.Finding.{ReviewerFinding, FindingDisposition}
use aipro.Findings.{
  FindingRegistry, new_status, is_unsettled, mismatched, replace_first, is_open, no_text, truthy,
  reason, settle_found, with_status, apply_disposition,
}

-- The actions by which a finding comes to a status.
abbrev pub actions_into : FindingStatus → List DispositionAction
actions_into accepted = fix ∷ accept ∷ []
actions_into rejected = reject_wont_fix ∷ already_addressed ∷ []
actions_into deferred = reply_deferred ∷ escalate_human ∷ []
actions_into _ = []

-- The finding `f` of `r` was settled by `d` and became `g`.
pub record Settles (blank : String → Bool) (r s : FindingRegistry) (f g : ReviewerFinding)
    (d : FindingDisposition) : Type 0 where
  pub before : List ReviewerFinding
  pub after : List ReviewerFinding
  pub was : r.findings ≡ before ++ f ∷ after
  pub becomes : s.findings ≡ before ++ g ∷ after
  pub the_first : All (λ x. (x.id == d.finding_id) ≡ false) before
  pub archive : s.archived ≡ r.archived
  pub named : f.id ≡ d.finding_id
  pub unsettled : is_unsettled f.status ≡ true
  pub settled : In d.action (actions_into g.status)
  pub unchanged : g ≡ record f { status = g.status; status_reason = g.status_reason }
  pub explained : blank d.rationale ≡ false
  pub same_thread : mismatched d.thread_id f.thread_id ≡ false
  pub replied :
      r.require_coder_reply_before_resolve ≡ true
      → truthy d.thread_id ≡ true
      → no_text blank d.reply_body ≡ false

actions_into-new_status :
    (action : DispositionAction)
    → is_open (new_status action) ≡ false
    → In action (actions_into (new_status action))
unfolding new_status
actions_into-new_status fix h = inl refl
actions_into-new_status accept h = inr (inl refl)
actions_into-new_status reject_wont_fix h = inl refl
actions_into-new_status already_addressed h = inr (inl refl)
actions_into-new_status reply_deferred h = inl refl
actions_into-new_status escalate_human h = inr (inl refl)
actions_into-new_status rebut h = absurd (open_refused h)
  where
    open_refused : true ≡ false → ⊥
    open_refused e = cc

-- The place of the first finding of an id, and what stands there after a replacement.
abbrev Placed : String → List ReviewerFinding → ReviewerFinding → Type 0
Placed id fs f =
    (before : List ReviewerFinding) × (after : List ReviewerFinding) × (fs ≡ before ++ f ∷ after)
    × All (λ x. (x.id == id) ≡ false) before
    × ((g : ReviewerFinding) → replace_first id g fs ≡ before ++ g ∷ after)

found_here : {x f : ReviewerFinding} → some x ≡ some f → x ≡ f
found_here e = cc

find-Placed :
    (id : String) (f : ReviewerFinding) (fs : List ReviewerFinding)
    → find (λ x. x.id == id) fs ≡ some f
    → Placed id fs f
unfolding find replace_first
find-Placed id f [] h = absurd (nothing h)
  where
    nothing : none ≡ some f → ⊥
    nothing e = cc
find-Placed id f (x ∷ fs) h = elim (Bool-cases (x.id == id)) [
  | inl e ↦ ([], fs, ap (λ z. z ∷ fs) (found_here (rw e at h)), tt, λ g. rw e refl)
  | inr e ↦
      let (before, after, was, first, now) = find-Placed id f fs (rw e at h) in
      (x ∷ before, after, ap (λ z. x ∷ z) was, (e, first), λ g. rw e (ap (λ z. x ∷ z) (now g)))
]

mismatched-or_old :
    (thread_id own : Option String)
    → mismatched thread_id own ≡ false
    → mismatched (or_old thread_id own) own ≡ false
mismatched-or_old (some t) own h = h
mismatched-or_old none none h = refl
mismatched-or_old none (some t) h = ground (arith, ==_refl t)

module _ (blank : String → Bool) (r : FindingRegistry) (finding_id rationale decided_by : String)
    (thread_id reply_body : Option String) where
  -- A rebuttal is never recorded: the disposition fails for whichever finding, since the constructor
  -- of a finding refuses a reason for an open one.
  pub rebut_fails :
      apply_disposition blank r finding_id rebut rationale decided_by thread_id reply_body
      ≡ err domain_error
  unfolding apply_disposition settle_found with_status new_status
  rebut_fails = elim (Option-cases (find (λ g. g.id == finding_id) r.findings)) [
    | inl e ↦ rw e refl
    | inr (f, e) ↦ rw e (ground arith)
  ]

  -- What a disposition of the finding `f` that is applied has passed and made.
  settled_parts :
      (f : ReviewerFinding) (action : DispositionAction) (s : FindingRegistry) (g : ReviewerFinding)
      (d : FindingDisposition)
      → settle_found blank r f finding_id action rationale decided_by thread_id reply_body
        ≡ ok (s, g, d)
      → (is_open (new_status action) ≡ false)
        × (is_unsettled f.status ≡ true)
        × (mismatched thread_id f.thread_id ≡ false)
        × (blank rationale ≡ false)
        × ((r.require_coder_reply_before_resolve
              && truthy (or_old thread_id f.thread_id)
              && no_text blank reply_body)
            ≡ false)
        × ((s ≡ record r { findings = replace_first finding_id g r.findings })
            × (g ≡ record f {
              status = new_status action;
              status_reason = some (reason action rationale);
            })
            × (d ≡ record {
              finding_id = finding_id;
              action = action;
              rationale = rationale;
              decided_by = decided_by;
              thread_id = or_old thread_id f.thread_id;
              reply_body = reply_body;
              run_id = none;
              round_id = none;
              response_to_round_id = none;
            }))
  unfolding settle_found with_status
  settled_parts f action s g d h = ground (arith, h)

  needs_reply : (a b c : Bool) → (a && b && c) ≡ false → a ≡ true → b ≡ true → c ≡ false
  needs_reply a b c h p q = ground arith

  -- A disposition that is applied was for the first registered finding of its id, which was open or
  -- deferred. That finding alone changes, in its status and its reason; it becomes accepted by fix or
  -- accept, rejected by reject_wont_fix or already_addressed, deferred by reply_deferred or
  -- escalate_human. The other findings keep their places and the archive stays; the rationale is not
  -- blank, the disposition names no other thread than the finding's, and if replies are required and
  -- it names a thread, its reply is not blank.
  pub apply_disposition-Settles :
      (action : DispositionAction) (s : FindingRegistry) (g : ReviewerFinding)
      (d : FindingDisposition)
      → apply_disposition blank r finding_id action rationale decided_by thread_id reply_body
        ≡ ok (s, g, d)
      → (f : ReviewerFinding) × Settles blank r s f g d
  unfolding apply_disposition
  apply_disposition-Settles action s g d h =
      elim (Option-cases (find (λ x. x.id == finding_id) r.findings)) [
        | inl e ↦ absurd (ground (arith, e, h))
        | inr (f, e) ↦
            let (here, same) = find-some (λ x. x.id == finding_id) f r.findings e in
            let (before, after, was, first, now) = find-Placed finding_id f r.findings e in
            let (quiet, status, thread, said, reply, made) =
              settled_parts f action s g d (rw e at h) in
            let (sq, gq, dq) = made in
            (
              f,
              record {
                before = before;
                after = after;
                was = was;
                becomes = ap (λ x. x.findings) sq ∙ now g;
                the_first = rw dq first;
                archive = ap (λ x. x.archived) sq;
                named = (eq_iff f.id finding_id).0 same ∙ ap (λ x. x.finding_id) (sym dq);
                unsettled = status;
                settled = rw (dq, gq) (actions_into-new_status action quiet);
                unchanged =
                    gq
                    ∙ ap (λ x. record f { status = x.status; status_reason = x.status_reason })
                        (sym gq);
                explained = rw dq said;
                same_thread = rw dq (mismatched-or_old thread_id f.thread_id thread);
                replied = rw dq (needs_reply _ _ _ reply);
              },
            )
      ]
