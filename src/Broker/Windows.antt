-- ===== src/Broker/Windows.antt =====
-- src/ai_pr_orchestrator/v3/broker.py and config.py: the broker's policy, the demand, and the quota
-- windows of a snapshot with their reserves. Roles are valid by their type, extras are left out.
use aipro.Prelude.{
  ℕ, String, Bool, Option, none, some, List, [], ◌∷◌, not, ◌==◌, string_eq, if◌then◌else◌, Result,
  ok, broker_error, ◌>>◌, raise_if,
}
use aipro.Prelude.Dict.{Dict, lookup, insert}
use aipro.Numbers.{Number}
use aipro.Domain.{AgentLaneRole}
use aipro.Catalog.{ModelCatalog, ModelCatalogEntry, on_scale}
use aipro.Telemetry.{QuotaWindow, ProviderResourceSnapshot, remaining_fraction, time_to_reset}

pub record ResourceReserveConfig (F : Type 0) : Type 0 where
  pub resource : String
  pub fraction : F
  pub windows : Dict F

pub record BrokerConfig (F : Type 0) : Type 0 where
  pub min_quality_by_role : List (AgentLaneRole × ℕ)
  pub default_quality : Option ℕ
  pub weight_quality : F
  pub weight_cash_cost : F
  pub weight_quota_pressure : F
  pub weight_health : F
  pub weight_perishability : F
  pub weight_diversity : F
  pub reserves : List (ResourceReserveConfig F)
  pub projected_burn_fraction_per_hour : Dict F
  pub pull_forward_horizon_hours : F
  pub scarcity_threshold : F
  pub scarcity_difficulty_floor : ℕ
  pub max_failure_rate : F
  pub min_health_samples : ℕ
  pub unknown_quota_score : F
  pub unknown_health_score : F
  pub reference_price_per_mtok : F
  pub expected_input_mtok : F
  pub expected_output_mtok : F
  pub max_fallbacks : ℕ
  pub require_distinct_fallback_provider : Bool

pub record TaskDemand : Type 0 where
  pub lane : String
  pub role : AgentLaneRole
  pub difficulty : ℕ
  pub peers : List String
  pub independent_of : List String
  pub require_bounded_spend : Bool
  pub incumbent : Option String
  pub in_flight : Dict ℕ

-- `TaskDemand(...)` with `__post_init__`
unfoldable pub task_demand : TaskDemand → Result TaskDemand
task_demand d = do
  raise_if (d.lane == "") broker_error
  raise_if (not (on_scale d.difficulty)) broker_error
  ok d

-- `_WindowView`
pub record WindowView (F : Type 0) : Type 0 where
  pub label : String
  pub reserve : F
  pub remaining : F
  pub available : F
  pub hours_to_reset : Option F

-- The fields of `PolicyBroker` that `select` reads.
pub record PolicyBroker (F : Type 0) : Type 0 where
  pub catalog : ModelCatalog F
  pub config : BrokerConfig F
  pub snapshots : Dict (ProviderResourceSnapshot F)
  pub resource_by_provider : Dict String
  pub reserves : Dict (ResourceReserveConfig F)

module _ {F : Type 0} where
  -- `{snap.resource: snap for snap in snapshots}`
  unfoldable pub by_resource :
      Dict (ProviderResourceSnapshot F)
      → List (ProviderResourceSnapshot F)
      → Dict (ProviderResourceSnapshot F)
  by_resource d [] = d
  by_resource d (s ∷ ss) = by_resource (insert s.resource s d) ss

  unfoldable pub reserves_by_resource :
      Dict (ResourceReserveConfig F)
      → List (ResourceReserveConfig F)
      → Dict (ResourceReserveConfig F)
  reserves_by_resource d [] = d
  reserves_by_resource d (r ∷ rs) = reserves_by_resource (insert r.resource r d) rs

  unfoldable pub policy_broker :
      ModelCatalog F
      → BrokerConfig F
      → List (ProviderResourceSnapshot F)
      → Dict String
      → PolicyBroker F
  policy_broker catalog config snapshots resource_by_provider = record {
    catalog = catalog;
    config = config;
    snapshots = by_resource [] snapshots;
    resource_by_provider = resource_by_provider;
    reserves = reserves_by_resource [] config.reserves;
  }

  -- `if resource: return ...get(resource)`, otherwise by the entry's ref
  abbrev pub snapshot_at :
      PolicyBroker F → String → Option String → Option (ProviderResourceSnapshot F)
  snapshot_at b ref none = lookup ref b.snapshots
  snapshot_at b ref (some resource) =
      if resource == "" then lookup ref b.snapshots else lookup resource b.snapshots

  unfoldable pub snapshot_for :
      PolicyBroker F → ModelCatalogEntry F → Option (ProviderResourceSnapshot F)
  snapshot_for b e = snapshot_at b e.ref (lookup e.provider b.resource_by_provider)

module _ {F : Type 0} (n : Number F) where
  -- `d.get(k, default)`
  abbrev pub or_default : F → Option F → F
  or_default x none = x
  or_default x (some y) = y

  abbrev pub reserve_of : String → Option (ResourceReserveConfig F) → F
  reserve_of label none = n.zero
  reserve_of label (some r) = or_default r.fraction (lookup label r.windows)

  abbrev pub in_hours : Option ℕ → Option F
  in_hours none = none
  in_hours (some t) = some (n.hours t)

  abbrev pub view_of : Option (ResourceReserveConfig F) → ℕ → QuotaWindow F → F → WindowView F
  view_of r now w remaining = record {
    label = w.label;
    reserve = reserve_of w.label r;
    remaining = remaining;
    available = n.sub remaining (reserve_of w.label r);
    hours_to_reset = in_hours (time_to_reset w now);
  }

  -- The loop of `_windows`: a window that was not measured is dropped.
  unfoldable pub measured :
      Option (ResourceReserveConfig F) → ℕ → List (QuotaWindow F) → List (WindowView F)
  measured r now [] = []
  measured r now (w ∷ ws) = elim (remaining_fraction n w) [
    | none ↦ measured r now ws
    | some x ↦ view_of r now w x ∷ measured r now ws
  ]

  unfoldable pub windows :
      PolicyBroker F → Option (ProviderResourceSnapshot F) → ℕ → List (WindowView F)
  windows b none now = []
  windows b (some s) now = measured (lookup s.resource b.reserves) now s.windows

  -- `min(views, key=lambda v: v.available)`: the first of the least
  unfoldable pub tightest : WindowView F → List (WindowView F) → WindowView F
  tightest v [] = v
  tightest v (w ∷ ws) = tightest (if n.lt w.available v.available then w else v) ws

  abbrev pub binding : List (WindowView F) → Option (WindowView F)
  binding [] = none
  binding (v ∷ vs) = some (tightest v vs)
