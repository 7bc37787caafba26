-- ===== src/Broker/Filters.antt =====
-- src/ai_pr_orchestrator/v3/broker.py: why an entry cannot serve a demand. A rejection is named by a
-- constructor for each text, with the values that the text shows.
use aipro.Prelude.{
  ℕ, String, Bool, true, false, Option, none, some, List, [], ◌∷◌, filter, any, all, not, ◌&&◌,
  ◌||◌, ◌==◌, string_eq, leb, ltb, if◌then◌else◌,
}
use aipro.Prelude.Dict.{or_else}
use aipro.Numbers.{Number}
use aipro.Catalog.{
  ModelCatalogEntry, get, costs_nothing, is_free_tier, is_subscription, has_known_price,
  quality_for, excludes, score_of, lowest,
}
use aipro.Telemetry.{
  ResourceAvailability, available, exhausted, unavailable, unknown, ProviderHealth,
  ProviderResourceSnapshot, labels, spent_windows, total, failure_rate,
}
use aipro.Broker.Capacity.{full, greater, count_at}
use aipro.Broker.Windows.{
  BrokerConfig, TaskDemand, WindowView, PolicyBroker, snapshot_for, windows, tightest,
}

pub data Rejection : Type 0 where
  disabled no_charge_ceiling family_not_independent wrong_role no_price : Rejection
  reserved_for_difficulty at_concurrency_cap : ℕ → Rejection
  unscored : Rejection
  below_floor : ℕ → ℕ → Rejection
  spent_on : List String → Rejection
  empty_balance : Rejection
  unusable : String → Rejection
  backing_off : ℕ → Rejection
  failing : Rejection
  reserve_reached scarce_window : String → Rejection

abbrev pub or_lowest : Option ℕ → ℕ
or_lowest none = lowest
or_lowest (some q) = q

abbrev pub judged : ℕ → Option ℕ → Option Rejection
judged floor none = some unscored
judged floor (some q) = if ltb q floor then some (below_floor q floor) else none

abbrev pub cap_or_zero : Option ℕ → ℕ
cap_or_zero none = 0
cap_or_zero (some k) = k

abbrev pub spent_or_broke : List String → Rejection
spent_or_broke [] = empty_balance
spent_or_broke (l ∷ ls) = spent_on (l ∷ ls)

abbrev pub state_rejection : List String → String → ResourceAvailability → Option Rejection
state_rejection spent reason exhausted = some (spent_or_broke spent)
state_rejection spent reason unavailable = some (unusable reason)
state_rejection spent reason available = none
state_rejection spent reason unknown = none

module _ {F : Type 0} where
  -- A subscription or a free tier.
  abbrev pub has_allowance : ModelCatalogEntry F → Bool
  has_allowance e = is_subscription e.resource_class || is_free_tier e.resource_class

  -- `peer is None or not peer.family or not entry.family or peer.family == entry.family`
  abbrev pub too_close : String → Option (ModelCatalogEntry F) → Bool
  too_close family none = true
  too_close family (some peer) = (peer.family == "" || family == "") || peer.family == family

  unfoldable pub quality_floor : BrokerConfig F → TaskDemand → ℕ
  quality_floor c d = greater d.difficulty (or_lowest (score_of d.role c.min_quality_by_role))

  unfoldable pub reject_on_quality :
      BrokerConfig F → ModelCatalogEntry F → TaskDemand → Option Rejection
  reject_on_quality c e d =
      judged (quality_floor c d) (or_else (quality_for e d.role) c.default_quality)

module _ {F : Type 0} (n : Number F) where
  -- A reset that is known and near.
  abbrev pub resets_soon : BrokerConfig F → WindowView F → Bool
  resets_soon c v = elim v.hours_to_reset [
    | none ↦ false
    | some h ↦ n.le h c.pull_forward_horizon_hours
  ]

  abbrev pub is_scarce : BrokerConfig F → WindowView F → Bool
  is_scarce c v = n.lt v.available c.scarcity_threshold

  abbrev pub withheld : BrokerConfig F → TaskDemand → List (WindowView F) → Option Rejection
  withheld c d [] = none
  withheld c d (v ∷ vs) =
      if leb c.scarcity_difficulty_floor d.difficulty
      then none
      else if all (resets_soon c) (v ∷ vs)
      then none
      else some (scarce_window (tightest n v vs).label)

  unfoldable pub reject_on_scarcity :
      BrokerConfig F → TaskDemand → List (WindowView F) → Option Rejection
  reject_on_scarcity c d views = withheld c d (filter (is_scarce c) views)

  abbrev pub is_breached : WindowView F → Bool
  is_breached v = n.le v.available n.zero

  abbrev pub breach_of : List (WindowView F) → Option Rejection
  breach_of [] = none
  breach_of (v ∷ vs) = some (reserve_reached (tightest n v vs).label)

  unfoldable pub reject_on_windows :
      BrokerConfig F → TaskDemand → List (WindowView F) → Option Rejection
  reject_on_windows c d views =
      or_else (breach_of (filter (is_breached) views)) (reject_on_scarcity c d views)

  -- `health.is_throttled(now) and health.retry_after is not None`
  abbrev pub throttle_of : ProviderHealth F → ℕ → Option Rejection
  throttle_of h now = elim h.retry_after [
    | none ↦ none
    | some t ↦ if ltb now t then some (backing_off t) else none
  ]

  abbrev pub fails_often : BrokerConfig F → ProviderHealth F → Bool
  fails_often c h = elim (failure_rate n h) [
    | none ↦ false
    | some r ↦ leb c.min_health_samples (total h) && n.lt c.max_failure_rate r
  ]

  abbrev pub reject_on_health : BrokerConfig F → ProviderHealth F → ℕ → Option Rejection
  reject_on_health c h now =
      or_else (throttle_of h now) (if fails_often c h then some failing else none)

  -- The checks on a snapshot's availability.
  abbrev pub reject_on_state : ProviderResourceSnapshot F → Option Rejection
  reject_on_state s = state_rejection (labels (spent_windows n s)) s.reason s.availability

  abbrev pub reject_on_snapshot :
      PolicyBroker F → TaskDemand → ℕ → Option (ProviderResourceSnapshot F) → Option Rejection
  reject_on_snapshot b d now none = none
  reject_on_snapshot b d now (some s) = or_else (reject_on_state s) (
      or_else (reject_on_health b.config s.health now)
        (reject_on_windows b.config d (windows n b (some s) now)))

  unfoldable pub reject_on_telemetry :
      PolicyBroker F → ModelCatalogEntry F → TaskDemand → ℕ → Option Rejection
  reject_on_telemetry b e d now = reject_on_snapshot b d now (snapshot_for b e)

  -- `_reject`: `none` where the entry can serve the demand
  unfoldable pub reject : PolicyBroker F → ModelCatalogEntry F → TaskDemand → ℕ → Option Rejection
  reject b e d now =
      if not e.enabled
      then some disabled
      else if d.require_bounded_spend && not (costs_nothing e)
      then some no_charge_ceiling
      else if any (λ r. too_close e.family (get b.catalog r)) d.independent_of
      then some family_not_independent
      else if excludes e.roles (some d.role)
      then some wrong_role
      else if ltb d.difficulty e.min_task_difficulty
      then some (reserved_for_difficulty e.min_task_difficulty)
      else if not (has_known_price e now) && not (has_allowance e)
      then some no_price
      else if full e.max_concurrency (count_at e.ref d.in_flight)
      then some (at_concurrency_cap (cap_or_zero e.max_concurrency))
      else or_else (reject_on_quality b.config e d) (reject_on_telemetry b e d now)
