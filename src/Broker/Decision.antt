-- ===== src/Broker/Decision.antt =====
-- What `select` promises: an answer to every demand, a model that may be used, and the incumbent.
use aipro.Prelude.{
  ℕ, ◌≤◌, String, Bool, true, false, Option, none, some, List, [], ◌∷◌, any, filter, filter-nil,
  not, ◌&&◌, ◌==◌, string_eq, ==_refl, eq_iff, ◌≡◌, ◌↔◌, refl, sym, ap, ◌∙◌, subst, arith,
  Bool-cases, inl, inr, In, All, any_witness, any_intro, ok, ◌>>=◌, >>=-eq-ok, broker_error,
  domain_error, raise_if-ok, ok_inj, some_inj,
}
use aipro.Prelude.Dict.{or_else}
use aipro.Numbers.{Number, IsOrdered}
use aipro.Catalog.{ModelCatalogEntry, costs_nothing, quality_for}
use aipro.Telemetry.{
  ProviderResourceSnapshot, ResourceAvailability, available, exhausted, unavailable, unknown,
  labels, spent_windows,
}
use aipro.Broker.{ModelAssignment, model_assignment}
use aipro.Broker.Capacity.{full, greater, count_at}
use aipro.Broker.Windows.{TaskDemand, task_demand, PolicyBroker, WindowView, snapshot_for, windows}
use aipro.Broker.Filters.{
  reject, judged, quality_floor, reject_on_quality, reject_on_telemetry, reject_on_snapshot,
  reject_on_windows, is_breached, breach_of, reject_on_state, reject_on_health, state_rejection,
}
use aipro.Broker.Select.{
  Ranked, Rejected, BrokerDecision, first_ref, choose, is_sticky, assigned, classify, sort, decided,
  select,
}
use aipro.Broker.Ranking.{sort-In_iff, IsSorted, sort-IsSorted}
use aipro.Broker.Dispatch.{some-none, RankedFrom, RejectedFrom, classify-Sided}

or_else-none : {A : Type 0} (o p : Option A) → or_else o p ≡ none → (o ≡ none) × (p ≡ none)
or_else-none none p h = (refl, h)
or_else-none (some a) p h = cc

abbrev pub blocks : ResourceAvailability → Bool
blocks exhausted = true
blocks unavailable = true
blocks available = false
blocks unknown = false

state_open :
    (spent : List String) (reason : String) (a : ResourceAvailability)
    → state_rejection spent reason a ≡ none
    → blocks a ≡ false
state_open spent reason exhausted h = cc
state_open spent reason unavailable h = cc
state_open spent reason available h = refl
state_open spent reason unknown h = refl

floor_met :
    (floor : ℕ) (o : Option ℕ) → judged floor o ≡ none → (q : ℕ) × (o ≡ some q) × (floor ≤ q)
floor_met floor none h = cc
floor_met floor (some q) h = (q, refl, ground arith)

greater_left : (a b q : ℕ) → greater a b ≤ q → a ≤ q
greater_left a b q h = ground arith

model_assignment-ok :
    (lane ref : String) (m : ModelAssignment)
    → model_assignment lane ref ≡ ok m
    → record { lane = lane; model_ref = ref } ≡ m
unfolding model_assignment
model_assignment-ok lane ref m h =
    let (x, rest) = raise_if-ok (lane == "") domain_error _ h in
    let (y, made) = raise_if-ok (ref == "") domain_error _ rest in ok_inj made

assigned-ok :
    (lane : String) (o : Option String)
    → (lane == "") ≡ false
    → (a : Option ModelAssignment) × (assigned lane o ≡ ok a)
unfolding model_assignment
assigned-ok lane none h = (none, refl)
assigned-ok lane (some r) h = elim (Bool-cases (r == "")) [
  | inl t ↦ (none, rw t refl)
  | inr t ↦ (some (record { lane = lane; model_ref = r }), rw (t, h) refl)
]

assigned_named :
    (lane i : String) (a : Option ModelAssignment)
    → (i == "") ≡ false
    → assigned lane (some i) ≡ ok a
    → a ≡ some (record { lane = lane; model_ref = i })
assigned_named lane i a named h =
    let (m, made, shown) = >>=-eq-ok (model_assignment lane i) _ (rw named at h) in
    sym (ok_inj shown) ∙ ap some (sym (model_assignment-ok lane i m made))

assigned-some :
    (lane : String) (o : Option String) (a : ModelAssignment)
    → assigned lane o ≡ ok (some a)
    → (o ≡ some a.model_ref) × (a.lane ≡ lane)
assigned-some lane none a h = absurd (some-none (sym (ok_inj h)))
assigned-some lane (some r) a h = elim (Bool-cases (r == "")) [
  | inl t ↦ absurd (some-none (sym (ok_inj (rw t at h))))
  | inr t ↦
      let (m, made, shown) = >>=-eq-ok (model_assignment lane r) _ (rw t at h) in
      let same = model_assignment-ok lane r m made ∙ some_inj (ok_inj shown) in
      (ap (λ z. some z.model_ref) same, ap (λ z. z.lane) (sym same))
]

module _ {F : Type 0} where
  -- A spent or unusable resource.
  abbrev pub is_blocked : Option (ProviderResourceSnapshot F) → Bool
  is_blocked none = false
  is_blocked (some s) = blocks s.availability

  first-In :
      (ranked : List (Ranked F)) (r : String)
      → first_ref ranked ≡ some r
      → (x : Ranked F) × In x ranked × (x.ref ≡ r)
  first-In [] r h = cc
  first-In (x ∷ xs) r h = (x, inl refl, some_inj h)

  chosen-In :
      (ranked : List (Ranked F)) (i : Option String) (r : String)
      → choose ranked i ≡ some r
      → (x : Ranked F) × In x ranked × (x.ref ≡ r)
  unfolding choose
  chosen-In ranked none r h = first-In ranked r h
  chosen-In ranked (some i) r h = elim (Bool-cases (any (λ x. x.ref == i) ranked)) [
    | inl t ↦
        let (x, m, e) = any_witness (λ x. x.ref == i) ranked t in
        (x, m, (eq_iff x.ref i).0 e ∙ some_inj (rw t at h))
    | inr t ↦ first-In ranked r (rw t at h)
  ]

  chosen_incumbent :
      (ranked : List (Ranked F)) (i : String) (x : Ranked F)
      → In x ranked
      → x.ref ≡ i
      → choose ranked (some i) ≡ some i
  unfolding choose
  chosen_incumbent ranked i x m e =
      rw (any_intro (λ y. y.ref == i) x ranked m ((eq_iff x.ref i).1 e)) refl

module _ {F : Type 0} (n : Number F) (b : PolicyBroker F) (d : TaskDemand) (now : ℕ) where
  select-parts :
      (r : BrokerDecision F)
      → select n b d now ≡ ok r
      → (unsorted : List (Ranked F)) × (rejected : List Rejected) × (assignment : Option
          ModelAssignment)
        × (classify n b d now b.catalog.entries ≡ ok (unsorted, rejected))
        × (assigned d.lane (choose (sort n unsorted) d.incumbent) ≡ ok assignment)
        × (decided n b d now (sort n unsorted) rejected assignment ≡ r)
  unfolding select
  select-parts r h =
      let ((unsorted, rejected), sided, rest) =
        >>=-eq-ok (classify n b d now b.catalog.entries) _ h in
      let (assignment, chosen, made) =
        >>=-eq-ok (assigned d.lane (choose (sort n unsorted) d.incumbent)) _ rest in
      (unsorted, rejected, assignment, sided, chosen, ok_inj made)

  windows_open :
      (o : Option (ProviderResourceSnapshot F))
      → reject_on_snapshot n b d now o ≡ none
      → (is_blocked o ≡ false) × All (λ v. n.le v.available n.zero ≡ false) (windows n b o now)
  unfolding reject_on_windows windows
  windows_open none h = (refl, tt)
  windows_open (some s) h =
      let (state, rest) = or_else-none (reject_on_state n s) _ h in
      let (health, views) = or_else-none (reject_on_health n b.config s.health now) _ rest in
      let (breach, scarcity) =
        or_else-none (breach_of n (filter (is_breached n) (windows n b (some s) now))) _ views in
      (
        state_open (labels (spent_windows n s)) s.reason s.availability state,
        filter-nil (is_breached n) (windows n b (some s) now) (no_breach _ breach),
      )
    where
      no_breach : (vs : List (WindowView F)) → breach_of n vs ≡ none → vs ≡ []
      no_breach [] e = refl
      no_breach (v ∷ vs) e = cc

  -- What an entry that is not rejected satisfies.
  abbrev pub MayServe : ModelCatalogEntry F → Type 0
  MayServe e =
      (e.enabled ≡ true)
      × ((d.require_bounded_spend && not (costs_nothing e)) ≡ false)
      × (e.min_task_difficulty ≤ d.difficulty)
      × (full e.max_concurrency (count_at e.ref d.in_flight) ≡ false)
      × ((q : ℕ) × (or_else (quality_for e d.role) b.config.default_quality ≡ some q)
          × (d.difficulty ≤ q))
      × (is_blocked (snapshot_for b e) ≡ false)
      × All (λ v. n.le v.available n.zero ≡ false) (windows n b (snapshot_for b e) now)

  quality_met :
      (e : ModelCatalogEntry F)
      → reject_on_quality b.config e d ≡ none
      → (q : ℕ) × (or_else (quality_for e d.role) b.config.default_quality ≡ some q)
        × (quality_floor b.config d ≤ q)
  unfolding reject_on_quality
  quality_met e h = floor_met (quality_floor b.config d) _ h

  by_telemetry :
      (e : ModelCatalogEntry F)
      → reject_on_telemetry n b e d now ≡ none
      → reject_on_snapshot n b d now (snapshot_for b e) ≡ none
  unfolding reject_on_telemetry
  by_telemetry e h = h

  reject-MayServe : (e : ModelCatalogEntry F) → reject n b e d now ≡ none → MayServe e
  unfolding reject quality_floor
  reject-MayServe e h =
      let (quality, telemetry) =
        or_else-none (reject_on_quality b.config e d) (reject_on_telemetry n b e d now)
          (ground (arith, h)) in
      let (q, at, met) = quality_met e quality in
      let (open_state, open_windows) = windows_open (snapshot_for b e) (by_telemetry e telemetry) in
      (
        ground (arith, h),
        ground (arith, h),
        ground (arith, h),
        ground (arith, h),
        (q, at, greater_left d.difficulty _ q met),
        open_state,
        open_windows,
      )

  -- Every demand that is accepted is answered: the assertion on prices never fails.
  pub select-ok : task_demand d ≡ ok d → (r : BrokerDecision F) × (select n b d now ≡ ok r)
  unfolding select task_demand
  select-ok accepted =
      let (ranked, rejected, made, sides) = classify-Sided n b d now b.catalog.entries in
      let (lane, rest) = raise_if-ok (d.lane == "") broker_error _ accepted in
      let (a, chosen) = assigned-ok d.lane (choose (sort n ranked) d.incumbent) lane in
      (
        decided n b d now (sort n ranked) rejected a,
        ap
              (λ m. m >>= λ (u, v). assigned d.lane (choose (sort n u) d.incumbent) >>= λ x.
                ok (decided n b d now (sort n u) v x))
              made
            ∙ ap (λ m. m >>= λ x. ok (decided n b d now (sort n ranked) rejected x)) chosen,
      )

  module _ (r : BrokerDecision F) where
    -- The ranked candidates of a decision are the catalog entries that nothing rejects, each with its
    -- score, and the rejected ones are the other entries, each with the reason that rejects it.
    pub select-Sided :
        select n b d now ≡ ok r
        → ((x : Ranked F) → In x r.ranked ↔ RankedFrom n b d now b.catalog.entries x)
          × ((y : Rejected) → In y r.rejected ↔ RejectedFrom n b d now b.catalog.entries y)
    select-Sided h =
        let (unsorted, rejected, a, sided, chosen, e) = select-parts r h in
        let (ranked', rejected', sided', (left, right)) =
          classify-Sided n b d now b.catalog.entries in
        let same = ok_inj (sym sided' ∙ sided) in
        let left' =
          subst (λ z. (x : Ranked F) → In x z ↔ RankedFrom n b d now b.catalog.entries x)
            (ap (λ p. p.0) same) left in
        (
          λ x.
              subst (λ z. In x z.ranked ↔ RankedFrom n b d now b.catalog.entries x) e
                (
                  λ m. (left' x).0 ((sort-In_iff n x unsorted).0 m),
                  λ m. (sort-In_iff n x unsorted).1 ((left' x).1 m),
                ),
          subst (λ z. (y : Rejected) → In y z ↔ RejectedFrom n b d now b.catalog.entries y)
              (ap (λ p. p.1) same ∙ ap (λ z. z.rejected) e) right,
        )

    -- If the order of the numbers is total, no ranked candidate scores less than one behind it.
    pub select-IsSorted : IsOrdered n → select n b d now ≡ ok r → IsSorted n r.ranked
    select-IsSorted o h =
        let (unsorted, rejected, a, sided, chosen, e) = select-parts r h in
        subst (λ z. IsSorted n z.ranked) e (sort-IsSorted n o unsorted)

    -- The model of an assignment is an entry of the catalog that may serve the demand: enabled, within
    -- its concurrency cap and the spending bound, good enough for the task, on a resource that is
    -- neither spent nor unusable, with allowance left above the reserve in every measured window.
    pub select-MayServe :
        (a : ModelAssignment)
        → select n b d now ≡ ok r
        → r.assignment ≡ some a
        → (e : ModelCatalogEntry F) × In e b.catalog.entries
          × (e.ref ≡ a.model_ref)
          × (a.lane ≡ d.lane)
          × MayServe e
    select-MayServe a h given =
        let (unsorted, rejected, asg, sided, chosen, e) = select-parts r h in
        let kept = ap (λ z. z.assignment) e ∙ given in
        let (ref, lane) =
          assigned-some d.lane (choose (sort n unsorted) d.incumbent) a (chosen ∙ ap ok kept) in
        let (x, m, same) = chosen-In (sort n unsorted) d.incumbent a.model_ref ref in
        let (f, k, open_to, scored, named) =
          ((select-Sided h).0 x).0 (subst (λ z. In x z.ranked) e m) in
        (f, k, named ∙ same, lane, reject-MayServe f open_to)

    -- A dispatchable incumbent is kept, whatever the others score.
    pub select-incumbent :
        (i : String) (x : Ranked F)
        → select n b d now ≡ ok r
        → d.incumbent ≡ some i
        → In x r.ranked
        → x.ref ≡ i
        → (i == "") ≡ false
        → (r.assignment ≡ some (record { lane = d.lane; model_ref = i })) × (r.sticky ≡ true)
    select-incumbent i x h inc m e named =
        let (unsorted, rejected, asg, sided, chosen, made) = select-parts r h in
        let kept =
          chosen_incumbent (sort n unsorted) i x (subst (λ z. In x z.ranked) (sym made) m) e in
        let chose = ap (choose (sort n unsorted)) inc ∙ kept in
        (
          ap (λ z. z.assignment) (sym made)
              ∙ assigned_named d.lane i asg named (sym (ap (assigned d.lane) chose) ∙ chosen),
          ap (λ z. z.sticky) (sym made)
              ∙ ap (λ o. is_sticky o d.incumbent) chose
              ∙ ap (is_sticky (some i)) inc
              ∙ ==_refl i,
        )
