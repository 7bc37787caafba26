-- ===== src/Broker/Examples.antt =====
-- Witnesses for the properties of the broker.
use aipro.Prelude.{
  ℕ, ◌≤◌, ◌+◌, true, false, none, some, List, [], ◌∷◌, string_eq, ◌≡◌, refl, arith, In, ok, ◌↔◌,
  any, filter, find, contains,
}
use aipro.Prelude.Dict.{lookup, insert}
use aipro.Numbers.Thousandths.{thousandths}
use aipro.Domain.{worker}
use aipro.Domain.Identity.{decimal}
use aipro.Catalog.{
  ModelCatalogEntry, ModelCatalog, subscription, metered, medium, high, coding, tools, get,
}
use aipro.Telemetry.{ProviderResourceSnapshot, available, no_health}
use aipro.Broker.{ModelAssignment, ModelLease}
use aipro.Broker.Capacity.{
  Capacity, no_capacity_taken, count_at, take_slot, release, cap_of, reserve,
}
use aipro.Broker.Leases.{held}
use aipro.Broker.Turnover.{
  BrokerCall, reserving, within, calls, call, outstanding-within, reserve-release,
}
use aipro.Broker.Filters.{below_floor}
use aipro.Broker.Windows.{
  BrokerConfig, TaskDemand, PolicyBroker, policy_broker, task_demand, snapshot_for, windows,
}
use aipro.Broker.Select.{
  Ranked, Rejected, BrokerDecision, provider_of, fallback_chain, select, decided, sort, classify,
}
use aipro.Broker.Dispatch.{RankedFrom, RejectedFrom}
use aipro.Broker.Decision.{MayServe, select-ok, select-Sided, select-MayServe}

abbrev strong : ModelCatalogEntry ℕ
strong = record {
  ref = "strong";
  descriptor = "a subscription";
  provider = "alpha";
  resource_class = subscription;
  cost_class = high;
  input_price_per_mtok = none;
  output_price_per_mtok = none;
  promotional = false;
  promo_starts_at = none;
  promo_ends_at = none;
  capabilities = coding ∷ tools ∷ [];
  roles = [];
  min_task_difficulty = 1;
  family = "f";
  vendor = "v";
  max_context_tokens = none;
  enabled = true;
  quality_by_role = (worker, 5) ∷ [];
  max_concurrency = some 1;
  source_updated_at = none;
}

abbrev paid : ModelCatalogEntry ℕ
paid = record strong {
  ref = "paid";
  provider = "beta";
  resource_class = metered;
  cost_class = medium;
  input_price_per_mtok = some 2000;
  output_price_per_mtok = some 8000;
  quality_by_role = (worker, 4) ∷ [];
}

abbrev weak : ModelCatalogEntry ℕ
weak = record paid { ref = "weak"; quality_by_role = (worker, 2) ∷ [] }

abbrev catalog : ModelCatalog ℕ
catalog = record { entries = weak ∷ paid ∷ strong ∷ [] }

abbrev config : BrokerConfig ℕ
config = record {
  min_quality_by_role = [];
  default_quality = none;
  weight_quality = 1000;
  weight_cash_cost = 1000;
  weight_quota_pressure = 750;
  weight_health = 750;
  weight_perishability = 1000;
  weight_diversity = 1000;
  reserves = record { resource = "strong"; fraction = 200; windows = [] } ∷ [];
  projected_burn_fraction_per_hour = [];
  pull_forward_horizon_hours = 24000;
  scarcity_threshold = 250;
  scarcity_difficulty_floor = 4;
  max_failure_rate = 500;
  min_health_samples = 5;
  unknown_quota_score = 500;
  unknown_health_score = 750;
  reference_price_per_mtok = 5000;
  expected_input_mtok = 1000;
  expected_output_mtok = 250;
  max_fallbacks = 3;
  require_distinct_fallback_provider = true;
}

-- Half of the week's allowance of the subscription is used.
abbrev half_used : ProviderResourceSnapshot ℕ
half_used = record {
  resource = "strong";
  observed_at = 0;
  availability = available;
  resource_class = subscription;
  windows = record { label = "week"; used_fraction = some 500; reset_at = none } ∷ [];
  cash_balance = none;
  expires_at = none;
  health = no_health;
  ttl_seconds = none;
  source = "probe";
  reason = "";
}

abbrev broker : PolicyBroker ℕ
unfolding policy_broker
broker = policy_broker catalog config (half_used ∷ []) []

abbrev demand : TaskDemand
demand = record {
  lane = "developer";
  role = worker;
  difficulty = 3;
  peers = [];
  independent_of = [];
  require_bounded_spend = false;
  incumbent = some "paid";
  in_flight = [];
}

demand_made : task_demand demand ≡ ok demand
unfolding task_demand
demand_made = refl

select-ok_example : (r : BrokerDecision ℕ) × (select thousandths broker demand 0 ≡ ok r)
select-ok_example = select-ok thousandths broker demand 0 demand_made

abbrev strong_ranked : Ranked ℕ
strong_ranked = record {
  ref = "strong";
  score = record {
    quality = 1000;
    cash_cost = 1000;
    quota_pressure = 300;
    health = 750;
    perishability = 0;
    reserve_effect = 200;
    binding_window = some "week";
    observed_windows = "week" ∷ [];
    diversity_penalty = 0;
    total = 2787;
  };
}

abbrev paid_ranked : Ranked ℕ
paid_ranked = record {
  ref = "paid";
  score = record {
    quality = 750;
    cash_cost = 555;
    quota_pressure = 1000;
    health = 750;
    perishability = 0;
    reserve_effect = 0;
    binding_window = none;
    observed_windows = [];
    diversity_penalty = 0;
    total = 2617;
  };
}

abbrev ranking : List (Ranked ℕ)
ranking = strong_ranked ∷ paid_ranked ∷ []

abbrev decision : BrokerDecision ℕ
decision = record {
  demand = demand;
  evaluated_at = 0;
  assignment = some (record { lane = "developer"; model_ref = "paid" });
  fallbacks = "strong" ∷ [];
  ranked = ranking;
  rejected = record { ref = "weak"; reason = below_floor 2 3 } ∷ [];
  sticky = true;
}

-- The incumbent is kept although the subscription scores more.
decision_made : select thousandths broker demand 0 ≡ ok decision
unfolding select classify broker aipro.Broker.Filters.reject any aipro.Catalog.has_known_price
    aipro.Catalog.promotion_active lookup aipro.Broker.Filters.reject_on_quality
    aipro.Catalog.score_of aipro.Broker.Filters.quality_floor
    aipro.Broker.Filters.reject_on_telemetry snapshot_for aipro.Broker.Windows.by_resource insert
    aipro.Broker.Scoring.score aipro.Broker.Scoring.cash_cost_component aipro.Broker.Scoring.blended
    aipro.Broker.Filters.reject_on_scarcity aipro.Broker.Filters.reject_on_windows
    aipro.Broker.Scoring.diversity_penalty aipro.Broker.Scoring.health_component
    aipro.Broker.Scoring.known_resets aipro.Broker.Scoring.perishability_component
    aipro.Broker.Scoring.promo_perishability aipro.Broker.Scoring.quality_component
    aipro.Broker.Scoring.quota_component aipro.Broker.Select.chain_from aipro.Broker.Select.choose
    fallback_chain aipro.Broker.Select.place_ranked provider_of sort aipro.Broker.Windows.measured
    policy_broker aipro.Broker.Windows.reserves_by_resource aipro.Broker.Windows.tightest windows
    aipro.Broker.model_assignment aipro.Catalog.effective_prices get contains filter find
    aipro.Telemetry.sum_values
decision_made = refl

select-Sided_example :
    ((x : Ranked ℕ)
      → In x decision.ranked ↔ RankedFrom thousandths broker demand 0 broker.catalog.entries x)
    × ((y : Rejected)
        → In y decision.rejected
          ↔ RejectedFrom thousandths broker demand 0 broker.catalog.entries y)
select-Sided_example = select-Sided thousandths broker demand 0 decision decision_made

select-MayServe_example :
    (e : ModelCatalogEntry ℕ) × In e broker.catalog.entries
    × (e.ref ≡ "paid")
    × ("developer" ≡ demand.lane)
    × MayServe thousandths broker demand 0 e
select-MayServe_example =
    select-MayServe thousandths broker demand 0 decision
      (record { lane = "developer"; model_ref = "paid" }) decision_made refl

abbrev strong_slot : ModelAssignment
strong_slot = record { lane = "developer"; model_ref = "strong" }

-- The one slot is taken; a second call is refused.
abbrev history : List BrokerCall
history = reserving strong_slot 0 ∷ reserving strong_slot 0 ∷ []

outstanding-within_example :
    (count_at "strong" (calls thousandths catalog no_capacity_taken history).outstanding
      ≡ held "strong" (calls thousandths catalog no_capacity_taken history).leases)
    × (within (cap_of thousandths catalog "strong") (
          held "strong" (calls thousandths catalog no_capacity_taken history).leases
          + count_at "strong" (calls thousandths catalog no_capacity_taken history).external)
        ≡ true)
outstanding-within_example = outstanding-within thousandths catalog history "strong"

abbrev first_lease : ModelLease ℕ
first_lease = record {
  lease_id = "developer:strong:0";
  assignment = strong_slot;
  max_charge_usd = none;
}

first_reserved :
    reserve thousandths catalog no_capacity_taken strong_slot 0
    ≡ ok (take_slot no_capacity_taken strong_slot 0, first_lease)
unfolding reserve cap_of get find lookup decimal
first_reserved = refl

no_calls_made : calls thousandths catalog no_capacity_taken [] ≡ no_capacity_taken
unfolding calls
no_calls_made = refl

held_now :
    lookup "developer:strong:0" (calls thousandths catalog no_capacity_taken history).leases
    ≡ some "strong"
unfolding calls lookup call reserve cap_of get find take_slot insert decimal
held_now = refl

reserve-release_example :
    (t : Capacity) × (lease : ModelLease ℕ) × (reserve thousandths catalog
        (release (calls thousandths catalog no_capacity_taken history) "developer:strong:0")
        strong_slot
        0
      ≡ ok (t, lease))
reserve-release_example =
    reserve-release thousandths catalog history "developer:strong:0" strong_slot 0 held_now
      nothing_less
  where
    nothing_less :
        0 ≤ count_at "strong" (calls thousandths catalog no_capacity_taken history).external
    nothing_less = omega arith
