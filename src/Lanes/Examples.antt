-- ===== src/Lanes/Examples.antt =====
-- The theorems on the lane registry at the default lanes.
use aipro.Prelude.{[], ◌≡◌, ◌↔◌, refl, ok, Distinct, find}
use aipro.Prelude.Dict.{lookup, insert}
use aipro.Lanes.{
  LaneIdentity, LaneRegistry, add_lanes, registry, default_lanes, from_config, developer_lane,
  names,
}
use aipro.Domain.{reviewer}
use aipro.Lanes.Uniqueness.{lane_names, profiles, entries, registry_ok_iff}

abbrev default_registry : LaneRegistry
default_registry = record { lanes = entries default_lanes }

abbrev breaker : LaneIdentity
breaker = record {
  lane = "breaker-reviewer";
  role = reviewer;
  profile_template = "aipro-breaker-reviewer";
}

registry-default : registry default_lanes ≡ ok default_registry
unfolding registry add_lanes lookup insert
registry-default = refl

from_config-empty : from_config [] ≡ ok default_registry
unfolding from_config registry add_lanes lookup insert
from_config-empty = refl

developer_lane-default : developer_lane default_registry ≡ "developer"
unfolding developer_lane find
developer_lane-default = refl

names-default : names default_registry ≡ lane_names default_lanes
unfolding names
names-default = refl

registry_ok_iff_example :
    (registry default_lanes ≡ ok default_registry)
    ↔ (default_registry ≡ record { lanes = entries default_lanes })
      × Distinct (lane_names default_lanes)
      × Distinct (profiles default_lanes)
registry_ok_iff_example = registry_ok_iff default_lanes default_registry
