-- ===== src/Reconcile/Rows.antt =====
-- The walk through the decision table: which row is taken, and what its action needs.
use aipro.Prelude.{
  Bool, true, false, some, List, [], ◌∷◌, ◌++◌, ◌≡◌, ◌↔◌, ap, subst, arith, Bool-cases,
  Option-cases, inl, inr, All, some_inj,
}
use aipro.Lanes.{LaneRegistry}
use aipro.Reconcile.{ReconciliationInputs, Action}
use aipro.Reconcile.Table.{DecisionRow, Key, applicable, first_applicable, crash_decision_table}
use aipro.Reconcile.Context.{decision_context}
use aipro.Reconcile.Planner.{bound_action, plan_crash_point}

-- A property of every row holds of the row that is taken.
pub first_applicable-All :
    (P : DecisionRow → Type 0) (ctx : Key → Bool) (rows : List DecisionRow) (r : DecisionRow)
    → All P rows
    → first_applicable ctx rows ≡ some r
    → P r
unfolding first_applicable
first_applicable-All P ctx [] r h e = cc
first_applicable-All P ctx (x ∷ rows) r h e = elim (Bool-cases (applicable ctx x.predicates)) [
  | inl t ↦ subst P (some_inj (rw t at e)) h.0
  | inr t ↦ first_applicable-All P ctx rows r h.1 (rw t at e)
]

pub plan_crash_point-eq-some :
    (lanes : LaneRegistry) (i : ReconciliationInputs) (a : Action)
    → plan_crash_point lanes i ≡ some a
    → (r : DecisionRow) × (first_applicable (decision_context lanes i) crash_decision_table
        ≡ some r)
      × (bound_action lanes i r ≡ a)
unfolding plan_crash_point
plan_crash_point-eq-some lanes i a h =
    elim (Option-cases (first_applicable (decision_context lanes i) crash_decision_table)) [
      | inl e ↦ absurd (ground (arith, e))
      | inr (r, e) ↦ (r, e, ground (arith, e))
    ]

abbrev pub Splits : (Key → Bool) → List DecisionRow → DecisionRow → Type 0
Splits ctx rows r =
    (above : List DecisionRow) × (below : List DecisionRow) × (rows ≡ above ++ r ∷ below)
    × All (λ x. applicable ctx x.predicates ≡ false) above
    × (applicable ctx r.predicates ≡ true)

first_applicable-split :
    (ctx : Key → Bool) (rows : List DecisionRow) (r : DecisionRow)
    → first_applicable ctx rows ≡ some r
    → Splits ctx rows r
unfolding first_applicable
first_applicable-split ctx [] r h = cc
first_applicable-split ctx (x ∷ rows) r h = elim (Bool-cases (applicable ctx x.predicates)) [
  | inl t ↦
      let e : x ≡ r = some_inj (rw t at h) in
      ([], rows, ap (λ y. y ∷ rows) e, tt, subst (λ y. applicable ctx y.predicates ≡ true) e t)
  | inr t ↦
      let (above, below, e, skipped, taken) = first_applicable-split ctx rows r (rw t at h) in
      (x ∷ above, below, ap (λ ys. x ∷ ys) e, (t, skipped), taken)
]

first_applicable-append :
    (ctx : Key → Bool) (above below : List DecisionRow) (r : DecisionRow)
    → All (λ x. applicable ctx x.predicates ≡ false) above
    → applicable ctx r.predicates ≡ true
    → first_applicable ctx (above ++ r ∷ below) ≡ some r
unfolding first_applicable
first_applicable-append ctx [] below r skipped taken = rw taken
first_applicable-append ctx (x ∷ above) below r (t, skipped) taken =
    rw t (first_applicable-append ctx above below r skipped taken)

-- The walk takes exactly the row that applies while no row above it does.
pub first_applicable_iff :
    (ctx : Key → Bool) (rows : List DecisionRow) (r : DecisionRow)
    → (first_applicable ctx rows ≡ some r) ↔ Splits ctx rows r
first_applicable_iff ctx rows r = (
  first_applicable-split ctx rows r,
  λ (above, below, e, skipped, taken).
      rw e (first_applicable-append ctx above below r skipped taken),
)
