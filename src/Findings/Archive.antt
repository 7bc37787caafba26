-- ===== src/Findings/Archive.antt =====
-- Compaction of the registry loses no finding.
use mathlib.Core.List.{append-nil, append_assoc}
use aipro.Prelude.{
  String, Bool, true, false, List, [], ◌∷◌, ◌++◌, filter, All, not, ◌||◌, is_empty, if◌then◌else◌,
  is_some, ◌≡◌, refl, sym, ap, ◌∙◌, arith, inl, inr, Bool-cases, Option-cases, ok,
}
use aipro.Domain.{FindingStatus}
use aipro.Domain.Finding.{ReviewerFinding, ArchivedFinding}
use aipro.Findings.{FindingRegistry}
use aipro.Findings.Compact.{is_settled, own_source, summary_of, from_finding, compact_from, compact}

-- The ids and the statuses.
abbrev pub archived_as : List ArchivedFinding → List (String × FindingStatus)
archived_as [] = []
archived_as (a ∷ rest) = (a.finding_id, a.status) ∷ archived_as rest

abbrev pub settled_as : List ReviewerFinding → List (String × FindingStatus)
settled_as [] = []
settled_as (f ∷ fs) = (f.id, f.status) ∷ settled_as fs

archived_as-append :
    (xs ys : List ArchivedFinding) → archived_as (xs ++ ys) ≡ archived_as xs ++ archived_as ys
archived_as-append [] ys = refl
archived_as-append (x ∷ xs) ys = ap (◌∷◌ (x.finding_id, x.status)) (archived_as-append xs ys)

-- `s` is `r` after the findings `fs` were looked at, where `active` are those that stay.
pub record Moved (r s : FindingRegistry) (active : List ReviewerFinding) (fs : List ReviewerFinding)
    : Type 0 where
  pub stays : s.findings ≡ active ++ filter (λ f. not (is_settled f.status)) fs
  pub gone :
      archived_as s.archived
      ≡ archived_as r.archived ++ settled_as (filter (λ f. is_settled f.status) fs)

module _ (f : ReviewerFinding) (fs : List ReviewerFinding) where
  filter_settled :
      is_settled f.status ≡ true
      → (filter (λ x. is_settled x.status) (f ∷ fs) ≡ f ∷ filter (λ x. is_settled x.status) fs)
        × (filter (λ x. not (is_settled x.status)) (f ∷ fs)
            ≡ filter (λ x. not (is_settled x.status)) fs)
  unfolding filter
  filter_settled t = ground (arith, t)

  filter_open :
      is_settled f.status ≡ false
      → (filter (λ x. is_settled x.status) (f ∷ fs) ≡ filter (λ x. is_settled x.status) fs)
        × (filter (λ x. not (is_settled x.status)) (f ∷ fs)
            ≡ f ∷ filter (λ x. not (is_settled x.status)) fs)
  unfolding filter
  filter_open t = ground (arith, t)

module _ (blank : String → Bool) where
  compact_from_open :
      (r : FindingRegistry) (active : List ReviewerFinding) (f : ReviewerFinding)
      (fs : List ReviewerFinding)
      → is_settled f.status ≡ false
      → compact_from blank r active (f ∷ fs) ≡ compact_from blank r (active ++ f ∷ []) fs
  unfolding compact_from
  compact_from_open r active f fs t = ground (arith, t)

  compact_from_settled :
      (r : FindingRegistry) (active : List ReviewerFinding) (f : ReviewerFinding)
      (fs : List ReviewerFinding)
      → is_settled f.status ≡ true
      → is_some f.status_reason ≡ true
      → (a : ArchivedFinding) × (compact_from blank r active (f ∷ fs)
          ≡ compact_from blank (record r { archived = r.archived ++ a ∷ [] }) active fs)
        × (a.finding_id ≡ f.id)
        × (a.status ≡ f.status)
  unfolding compact_from from_finding
  compact_from_settled r active f fs t u = elim (Option-cases f.status_reason) [
    | inl n ↦ absurd (ground (arith, n, u))
    | inr (why, n) ↦ (
      record {
        finding_id = f.id;
        lane = f.lane;
        severity = f.severity;
        status = f.status;
        status_reason = why;
        summary = summary_of blank f;
        sources = if is_empty f.sources then own_source f ∷ [] else f.sources;
      },
      ground (arith, t, n),
      refl,
      refl,
    )
  ]

  compact_from-Moved :
      (r : FindingRegistry) (active fs : List ReviewerFinding)
      → All (λ f. (not (is_settled f.status) || is_some f.status_reason) ≡ true) fs
      → (s : FindingRegistry) × (compact_from blank r active fs ≡ (s, ok (s.findings, s.archived)))
        × Moved r s active fs
  unfolding compact_from from_finding filter
  compact_from-Moved r active [] h = (
    record r { findings = active },
    refl,
    record { stays = sym (append-nil _); gone = sym (append-nil _) },
  )
  compact_from-Moved r active (f ∷ fs) (q, h) = elim (Bool-cases (is_settled f.status)) [
    | inr t ↦
        let (s, e, m) = compact_from-Moved r (active ++ f ∷ []) fs h in
        let (keeps, leaves) = filter_open f fs t in
        (
          s,
          compact_from_open r active f fs t ∙ e,
          record {
            stays = m.stays ∙ append_assoc active (f ∷ []) _ ∙ ap (λ l. active ++ l) (sym leaves);
            gone = m.gone ∙ ap (λ l. archived_as r.archived ++ settled_as l) (sym keeps);
          },
        )
    | inl t ↦
        let (a, step, named, same) = compact_from_settled r active f fs t (ground (arith, q, t)) in
        let (s, e, m) =
          compact_from-Moved (record r { archived = r.archived ++ a ∷ [] }) active fs h in
        let (keeps, leaves) = filter_settled f fs t in
        (
          s,
          step ∙ e,
          record {
            stays = m.stays ∙ ap (λ l. active ++ l) (sym leaves);
            gone =
                m.gone
                ∙ rw (archived_as-append r.archived (a ∷ []), named, same, keeps)
                    (append_assoc (archived_as r.archived) ((f.id, f.status) ∷ []) _);
          },
        )
  ]

  -- When every settled finding has a reason, compaction returns: the findings that are not settled
  -- stay in order, and the settled ones come after the old archive under their ids and statuses.
  pub compact-Moved :
      (r : FindingRegistry)
      → All (λ f. (not (is_settled f.status) || is_some f.status_reason) ≡ true) r.findings
      → (s : FindingRegistry) × (compact blank r ≡ (s, ok (s.findings, s.archived)))
        × Moved r s [] r.findings
  unfolding compact
  compact-Moved r h = compact_from-Moved r [] r.findings h
