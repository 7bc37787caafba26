-- ===== src/Broker/Select.antt =====
-- src/ai_pr_orchestrator/v3/broker.py: `PolicyBroker.select`. The decision's text is left out.
use aipro.Prelude.{
  ℕ, suc, String, Bool, false, Option, none, some, List, [], ◌∷◌, any, ◌&&◌, ◌||◌, ◌==◌, string_eq,
  contains, leb, if◌then◌else◌, Result, ok, ◌>>=◌,
}
use aipro.Numbers.{Number}
use aipro.Catalog.{ModelCatalogEntry, ModelCatalog, get}
use aipro.Broker.{ModelAssignment, model_assignment}
use aipro.Broker.Windows.{BrokerConfig, TaskDemand, PolicyBroker}
use aipro.Broker.Filters.{Rejection, reject}
use aipro.Broker.Scoring.{ScoreBreakdown, score}

-- `Candidate`: one with a score is eligible, and one with a reason is not.
pub record Ranked (F : Type 0) : Type 0 where
  pub ref : String
  pub score : ScoreBreakdown F

pub record Rejected : Type 0 where
  pub ref : String
  pub reason : Rejection

pub record BrokerDecision (F : Type 0) : Type 0 where
  pub demand : TaskDemand
  pub evaluated_at : ℕ
  pub assignment : Option ModelAssignment
  pub fallbacks : List String
  pub ranked : List (Ranked F)
  pub rejected : List Rejected
  pub sticky : Bool

abbrev pub unset_provider : String
unset_provider = "<unset-provider>"

-- `chosen is not None and chosen == demand.incumbent`
abbrev pub is_sticky : Option String → Option String → Bool
is_sticky (some r) (some i) = r == i
is_sticky _ _ = false

-- `ModelAssignment(lane, chosen) if chosen else None`
abbrev pub assigned : String → Option String → Result (Option ModelAssignment)
assigned lane none = ok none
assigned lane (some r) = if r == "" then ok none else model_assignment lane r >>= λ a. ok (some a)

module _ {F : Type 0} where
  -- `(entry.provider if entry else "") or "<unset-provider>"`
  abbrev pub provider_or_unset : Option (ModelCatalogEntry F) → String
  provider_or_unset none = unset_provider
  provider_or_unset (some e) = if e.provider == "" then unset_provider else e.provider

  unfoldable pub provider_of : ModelCatalog F → String → String
  provider_of c ref = provider_or_unset (get c ref)

  abbrev pub first_ref : List (Ranked F) → Option String
  first_ref [] = none
  first_ref (x ∷ xs) = some x.ref

  -- `_choose`
  unfoldable pub choose : List (Ranked F) → Option String → Option String
  choose ranked none = first_ref ranked
  choose ranked (some i) = if any (λ x. x.ref == i) ranked then some i else first_ref ranked

  -- The loop of `_fallback_chain`, with the providers seen and the length of the chain so far.
  unfoldable pub chain_from :
      ModelCatalog F → ℕ → Bool → String → List String → ℕ → List (Ranked F) → List String
  chain_from c most distinct chosen seen size [] = []
  chain_from c most distinct chosen seen size (x ∷ xs) =
      let provider = provider_of c x.ref in
      let skipped = chain_from c most distinct chosen seen size xs in
      let taken = chain_from c most distinct chosen (provider ∷ seen) (suc size) xs in
      if x.ref == chosen || leb most size
      then skipped
      else if distinct && contains provider seen
      then skipped
      else x.ref ∷ taken

  unfoldable pub fallback_chain :
      ModelCatalog F → BrokerConfig F → List (Ranked F) → Option String → List String
  fallback_chain c config ranked none = []
  fallback_chain c config ranked (some chosen) =
      chain_from c config.max_fallbacks config.require_distinct_fallback_provider chosen
        (provider_of c chosen ∷ []) 0 ranked

module _ {F : Type 0} where
  -- The candidate of an entry goes to its side; the score of a rejected entry is not asked for.
  abbrev pub with_entry :
      ModelCatalogEntry F
      → Option Rejection
      → Result (ScoreBreakdown F)
      → Result (List (Ranked F) × List Rejected)
      → Result (List (Ranked F) × List Rejected)
  with_entry e (some why) scored others = do
    (ranked, rejected) ← others
    ok (ranked, record { ref = e.ref; reason = why } ∷ rejected)
  with_entry e none scored others = do
    s ← scored
    (ranked, rejected) ← others
    ok (record { ref = e.ref; score = s } ∷ ranked, rejected)

module _ {F : Type 0} (n : Number F) where
  -- The loop over the catalog.
  unfoldable pub classify :
      PolicyBroker F
      → TaskDemand
      → ℕ
      → List (ModelCatalogEntry F)
      → Result (List (Ranked F) × List Rejected)
  classify b d now [] = ok ([], [])
  classify b d now (e ∷ es) =
      with_entry e (reject n b e d now) (score n b e d now) (classify b d now es)

  -- `ranked.sort(key=lambda c: -c.score.total)`, which is stable: a candidate stays in front of those
  -- behind it that do not score more.
  unfoldable pub place_ranked : Ranked F → List (Ranked F) → List (Ranked F)
  place_ranked x [] = x ∷ []
  place_ranked x (y ∷ ys) =
      let rest = place_ranked x ys in
      if n.lt x.score.total y.score.total then y ∷ rest else x ∷ y ∷ ys

  unfoldable pub sort : List (Ranked F) → List (Ranked F)
  sort [] = []
  sort (x ∷ xs) = place_ranked x (sort xs)

  abbrev pub decided :
      PolicyBroker F
      → TaskDemand
      → ℕ
      → List (Ranked F)
      → List Rejected
      → Option ModelAssignment
      → BrokerDecision F
  decided b d now ranked rejected assignment = record {
    demand = d;
    evaluated_at = now;
    assignment = assignment;
    fallbacks = fallback_chain b.catalog b.config ranked (choose ranked d.incumbent);
    ranked = ranked;
    rejected = rejected;
    sticky = is_sticky (choose ranked d.incumbent) d.incumbent;
  }

  unfoldable pub select : PolicyBroker F → TaskDemand → ℕ → Result (BrokerDecision F)
  select b d now = do
    (unsorted, rejected) ← classify b d now b.catalog.entries
    let ranked = sort unsorted
    assignment ← assigned d.lane (choose ranked d.incumbent)
    ok (decided b d now ranked rejected assignment)
